-- ===== src/Fifo/Select/Turn.antt =====
-- selectfifo: its loop over the queues.
use speutils_debs.Base.{
  ℕ, zero, suc, ◌+◌, ◌-◌, ◌<◌, ◌≡◌, sym, ap, ◌∙◌, Bool, true, false, none, some, List, arith, leb,
  if◌then◌else◌, get_elem?, length, ok, Bool-least, get_elem?-IsSome,
}
use mathlib.Core.Path.{subst}
use speutils_debs.Ring.{has_free}
use speutils_debs.Ring.Pending.{next, wrap, wrap-next}
use speutils_debs.Fifo.Port.{Port, Host}
use speutils_debs.Fifo.Select.{advance, select_from, select_fifo}

-- Whether the queue at an index has a free slot.
abbrev pub IsFree : List Port → ℕ → Bool → Type 0
IsFree ports i b = (p : Port) × (get_elem? ports i ≡ some p) × (has_free p.ring ≡ b)

module _ (ports : List Port) where
  select_from-turn :
      (fuel c k : ℕ)
      → c < length ports
      → k < length ports
      → k < fuel
      → ((j : ℕ) → j < k → IsFree ports (wrap (length ports) (c + j)) false)
      → IsFree ports (wrap (length ports) (c + k)) true
      → select_from fuel (length ports) ports c ≡ ok (wrap (length ports) (c + k))
  unfolding select_from advance
  select_from-turn zero c k hc hk hf busy free = absurd (omega arith)
  select_from-turn (suc fuel) c zero hc hk hf busy (p, holds, free) =
      let here : wrap (length ports) (c + 0) ≡ c = ground arith in ground (arith, here, holds, free)
  select_from-turn (suc fuel) c (suc k) hc hk hf busy free =
      let n = length ports in
      let here : wrap n (c + 0) ≡ c = ground arith in
      let (p, holds, full) = subst (λ i. IsFree ports i false) here (busy 0 (omega arith)) in
      let on = wrap-next n c k hc (omega arith) in
      rw (holds, full)
        (select_from-turn fuel (next n c) k (ground arith) (omega arith) (omega arith)
            (λ j hj.
              subst (λ i. IsFree ports i false) (sym (wrap-next n c j hc (omega arith)))
                (busy (suc j) (omega arith)))
            (subst (λ i. IsFree ports i true) (sym on) free)
          ∙ ap ok on)

free_at : List Port → ℕ → Bool
free_at ports i = elim (get_elem? ports i) [ none ↦ false | some p ↦ has_free p.ring ]

free_at-IsFree :
    (ports : List Port) (i : ℕ) (b : Bool)
    → i < length ports
    → free_at ports i ≡ b
    → IsFree ports i b
unfolding free_at
free_at-IsFree ports i b h e =
    let (p, holds) = get_elem?-IsSome ports i h in (p, holds, ground (arith, holds, e))

-- The number of steps from `c` to `i`.
abbrev pub steps_to : ℕ → ℕ → ℕ → ℕ
steps_to n c i = if leb c i then i - c else i + n - c

-- A pass over all the positions from `c` on.
Turn : List Port → ℕ → ℕ → Type 0
Turn ports n c =
    (k : ℕ) × (k < n)
    × ((j : ℕ) → j < k → IsFree ports (wrap n (c + j)) false)
    × IsFree ports (wrap n (c + k)) true
    × (select_from n n ports c ≡ ok (wrap n (c + k)))

turn :
    (ports : List Port) (c i : ℕ)
    → c < length ports
    → i < length ports
    → IsFree ports i true
    → Turn ports (length ports) c
unfolding Turn
turn ports c i hc hi (p, holds, free) =
    let n = length ports in
    let here : wrap n (c + steps_to n c i) ≡ i = ground arith in
    let at_i : free_at ports i ≡ true = unfold free_at in ground (arith, holds, free) in
    let (k, le, found, before) =
      Bool-least (λ j. free_at ports (wrap n (c + j))) (steps_to n c i)
        (ap (free_at ports) here ∙ at_i) in
    let short : steps_to n c i < n = ground arith in
    let busy = λ (j : ℕ) (h : j < k).
      free_at-IsFree ports (wrap n (c + j)) false (ground arith) (before j h) in
    let free = free_at-IsFree ports (wrap n (c + k)) true (ground arith) found in
    (
      k,
      omega arith,
      busy,
      free,
      select_from-turn ports n c k hc (omega arith) (omega arith) busy free,
    )

pub advance-lt : (n c : ℕ) → c < n → advance n c < n
unfolding advance
advance-lt n c h = ground arith

-- If some queue has a free slot, selectfifo ends within as many tests as there are SPEs. From the
-- position after current_spe on, in turn, it passes the queues without a free slot and picks the
-- first that has one; this is its result and the new current_spe, and nothing else changes.
pub select_fifo-turn :
    (host : Host) (i : ℕ)
    → host.spes ≡ length host.ports
    → host.current_spe < host.spes
    → i < host.spes
    → IsFree host.ports i true
    → let start = advance host.spes host.current_spe in
      (k : ℕ) × (k < host.spes)
      × ((j : ℕ) → j < k → IsFree host.ports (wrap host.spes (start + j)) false)
      × IsFree host.ports (wrap host.spes (start + k)) true
      × (select_fifo host.spes host
          ≡ ok (
            wrap host.spes (start + k),
            record host { current_spe = wrap host.spes (start + k) },
          ))
unfolding select_fifo Turn
select_fifo-turn host i e hc hi free =
    let start = advance host.spes host.current_spe in
    let (k, lt, busy, free_k, runs) =
      subst (λ n. Turn host.ports n start) (sym e)
        (turn host.ports start i (rw (← e) (advance-lt host.spes host.current_spe hc)) (omega arith)
          free) in
    (k, lt, busy, free_k, rw runs)
