-- ===== src/Ring/Pending.antt =====
-- ring.c as a queue: the indices of the occupied slots, oldest first.
use speutils_debs.Base.{
  ℕ, zero, suc, ◌+◌, ◌-◌, ◌≤◌, ◌<◌, ◌≡◌, ◌≢◌, sym, ap, ◌∙◌, true, List, [], ◌∷◌, ◌++◌, arith, leb,
  if◌then◌else◌,
}
use speutils_debs.Ring.{
  RingContext, has_free, has_remaining, inc_front, inc_back, get_front, get_back,
}
use speutils_debs.Ring.Count.{
  IsValid, used, has_free-has_remaining_iff, inc_front-used, inc_back-used,
}

-- The position after `i`, and the position `k < 2 * size` brought back into the buffer.
abbrev pub next : ℕ → ℕ → ℕ
next size i = if leb size (i + 1) then 0 else i + 1

abbrev pub wrap : ℕ → ℕ → ℕ
wrap size k = if leb size k then k - size else k

-- The `n` positions from `b` on.
unfoldable pub window : ℕ → ℕ → ℕ → List ℕ
window size b zero = []
window size b (suc n) = b ∷ window size (next size b) n

abbrev pub pending : RingContext → List ℕ
pending r = window r.size r.back (used r)

abbrev pub Avoids : ℕ → List ℕ → Type 0
Avoids x [] = Unit
Avoids x (y ∷ ys) = (x ≢ y) × Avoids x ys

pub window-snoc :
    (size b n : ℕ)
    → b < size
    → n < size
    → window size b (suc n) ≡ window size b n ++ wrap size (b + n) ∷ []
unfolding window
window-snoc size b zero hb hn = ap (λ k. k ∷ []) (ground arith)
window-snoc size b (suc n) hb hn =
    ap (λ l. b ∷ l)
      (window-snoc size (next size b) n (ground arith) (omega arith)
        ∙ ap (λ k. window size (next size b) n ++ k ∷ []) (ground arith))

pub wrap-next :
    (size b k : ℕ) → b < size → k < size → wrap size (next size b + k) ≡ wrap size (b + suc k)
wrap-next size b k hb hk = ground arith

window-Avoids :
    (size b n x : ℕ)
    → b < size
    → n ≤ size
    → ((k : ℕ) → k < n → wrap size (b + k) ≢ x)
    → Avoids x (window size b n)
unfolding window
window-Avoids size b zero x hb hn h = tt
window-Avoids size b (suc n) x hb hn h = (
  λ e. h 0 (omega arith) (ground arith),
  window-Avoids size (next size b) n x (ground arith) (omega arith)
      λ k hk e. h (suc k) (omega arith) (sym (wrap-next size b k hb (omega arith)) ∙ e),
)

-- On a valid ring with a free slot, the slot at the front is not among the occupied ones, and
-- ringIncFront appends exactly this slot to them.
pub inc_front-pending :
    {r : RingContext}
    → IsValid r
    → has_free r ≡ true
    → Avoids (get_front r) (pending r) × (pending (inc_front r) ≡ pending r ++ get_front r ∷ [])
unfolding get_front inc_front
inc_front-pending {r} v h =
    let room = (has_free-has_remaining_iff v).0.0 h in
    (
      window-Avoids r.size r.back (used r) r.front v.back_in (omega arith) (λ k hk. ground arith),
      ap (window r.size r.back) (ground (arith, inc_front-used v h))
          ∙ window-snoc r.size r.back (used r) v.back_in (omega arith)
          ∙ ap (λ k. window r.size r.back (used r) ++ k ∷ []) (ground arith),
    )

-- On a valid ring that is not empty, the slot at the back is the oldest occupied one, and
-- ringIncBack removes exactly this slot.
pub inc_back-pending :
    {r : RingContext}
    → IsValid r
    → has_remaining r ≡ true
    → pending r ≡ get_back r ∷ pending (inc_back r)
unfolding get_back inc_back window
inc_back-pending {r} v h =
    ap (window r.size r.back) {y = suc (used (inc_back r))} (ground (arith, inc_back-used v h))
    ∙ ap (λ k. r.back ∷ window r.size k (used (inc_back r))) (ground arith)
