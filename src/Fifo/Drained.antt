-- ===== src/Fifo/Drained.antt =====
-- fifoIsEmpty, fifoWait and fifoStop.
use speutils_debs.Base.{
  ℕ, suc, some, get_elem?, ◌+◌, ◌≡◌, refl, ◌↔◌, Bool, true, false, List, [], ◌∷◌, arith,
  if◌then◌else◌, ◌==◌, Outcome, ok, out_of_fuel, Bool-cases, inl, inr, ◌⊎◌,
}
use speutils_debs.Ring.{has_remaining}
use speutils_debs.Ring.Count.{IsValid, used, has_free-has_remaining_iff}
use speutils_debs.Fifo.Port.{Port, Host}

is_empty_ports : List Port → Bool
is_empty_ports [] = true
is_empty_ports (p ∷ ps) = if has_remaining p.ring then false else is_empty_ports ps

-- fifoIsEmpty
unfoldable pub fifo_is_empty : Host → Bool
unfolding is_empty_ports
fifo_is_empty host = is_empty_ports host.ports

-- The inner loop of fifoWait: `res` counts the queues that are not empty.
count_remaining : ℕ → List Port → ℕ
count_remaining res [] = res
count_remaining res (p ∷ ps) = count_remaining (if has_remaining p.ring then res + 1 else res) ps

-- fifoWait. The list holds what the loop sees in each round, since the other thread runs meanwhile.
unfoldable pub fifo_wait : List Host → Outcome (Unit {0})
unfolding count_remaining
fifo_wait [] = out_of_fuel
fifo_wait (host ∷ later) =
    let rest = fifo_wait later in if count_remaining 0 host.ports == 0 then ok tt else rest

-- fifoStop does nothing.
unfoldable pub fifo_stop : Host → Host
fifo_stop host = host

abbrev pub NoneUsed : List Port → Type 0
NoneUsed [] = Unit
NoneUsed (p ∷ ps) = (used p.ring ≡ 0) × NoneUsed ps

abbrev pub AllValid : List Port → Type 0
AllValid [] = Unit
AllValid (p ∷ ps) = IsValid p.ring × AllValid ps

is_empty_ports_iff : (ps : List Port) → AllValid ps → (is_empty_ports ps ≡ true) ↔ NoneUsed ps
unfolding is_empty_ports
is_empty_ports_iff [] v = (λ e. tt, λ n. refl)
is_empty_ports_iff (p ∷ ps) v =
    let here = (has_free-has_remaining_iff v.0).1 in
    let (to, from) = is_empty_ports_iff ps v.1 in
    elim (Bool-cases (has_remaining p.ring)) [
      | inl more ↦ (λ e. absurd (cc (rw more at e)), λ n. ground (arith, here.0 more, n.0))
      | inr done ↦ (λ e. (ground (arith, here.1), to (rw done at e)), λ n. rw done (from n.1))
    ]

-- On valid rings, fifoIsEmpty answers 1 exactly when no queue has an occupied slot.
pub fifo_is_empty-NoneUsed :
    (host : Host) → AllValid host.ports → (fifo_is_empty host ≡ true) ↔ NoneUsed host.ports
unfolding fifo_is_empty
fifo_is_empty-NoneUsed host v = is_empty_ports_iff host.ports v

is_empty_ports-all :
    (ps : List Port)
    → ((i : ℕ) (p : Port) → get_elem? ps i ≡ some p → has_remaining p.ring ≡ false)
    → is_empty_ports ps ≡ true
unfolding is_empty_ports
is_empty_ports-all [] all = refl
is_empty_ports-all (p ∷ ps) all =
    rw (all 0 p refl) (is_empty_ports-all ps (λ i q at. all (suc i) q at))

pub fifo_is_empty-all :
    (host : Host)
    → ((i : ℕ) (p : Port) → get_elem? host.ports i ≡ some p → has_remaining p.ring ≡ false)
    → fifo_is_empty host ≡ true
unfolding fifo_is_empty
fifo_is_empty-all host all = is_empty_ports-all host.ports all

count_remaining-is_empty :
    (res : ℕ) (ps : List Port)
    → (count_remaining res ps == 0) ≡ (if res == 0 then is_empty_ports ps else false)
unfolding count_remaining is_empty_ports
count_remaining-is_empty res [] = ground arith
count_remaining-is_empty res (p ∷ ps) =
    ground (arith, count_remaining-is_empty (if has_remaining p.ring then res + 1 else res) ps)

abbrev pub SomeEmpty : List Host → Type 0
SomeEmpty [] = ⊥
SomeEmpty (host ∷ later) = (fifo_is_empty host ≡ true) ⊎ SomeEmpty later

-- fifoWait returns exactly when fifoIsEmpty would answer 1 in one of the rounds.
pub fifo_wait-SomeEmpty : (seen : List Host) → (fifo_wait seen ≡ ok tt) ↔ SomeEmpty seen
unfolding fifo_wait fifo_is_empty
fifo_wait-SomeEmpty [] = (λ e. absurd (cc), λ n. absurd n)
fifo_wait-SomeEmpty (host ∷ later) =
    let (to, from) = fifo_wait-SomeEmpty later in
    let same = count_remaining-is_empty 0 host.ports in
    elim (Bool-cases (is_empty_ports host.ports)) [
      | inl empty ↦ (λ e. inl empty, λ n. rw (same, empty))
      | inr more ↦
          (λ e. inr (to (rw (same, more) at e)), λ n. rw (same, more) (from (wait_on more n)))
    ]
  where
    wait_on :
        {P : Type 0}
        → is_empty_ports host.ports ≡ false
        → (is_empty_ports host.ports ≡ true) ⊎ P
        → P
    wait_on more (inl e) = absurd (cc)
    wait_on more (inr n) = n
