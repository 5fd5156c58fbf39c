-- ===== src/Fifo/Tasks/Even.antt =====
-- tst/task_iface.c: its loops deal the tasks out to the queues in turn.
use mathlib.Core.Path.{subst}
use native.Mathlib.Decide.{ℕ_discrete}
use native.Mathlib.Nat.{mul-le-mul_right}
use speutils_debs.Base.{
  ℕ, zero, suc, ◌+◌, ◌-◌, ◌*◌, ◌≤◌, ◌<◌, ◌≡◌, ◌≢◌, refl, sym, ap, ◌∙◌, ◌⊎◌, inl, inr, Bool, true,
  false, some, List, [], ◌∷◌, arith, Bool-cases, get_elem?, set, length, ltb, leb, if◌then◌else◌,
  Outcome, ok, ◌>>=◌, get_elem?-lt, get_elem?-IsSome, get_elem?-set_self, get_elem?-set_ne,
}
use speutils_debs.Messages
use speutils_debs.Ring.{RingContext, has_free, inc_front}
use speutils_debs.Ring.Count.{used, inc_front-used}
use speutils_debs.Ring.Pending.{wrap}
use speutils_debs.Fifo.Port.{Port, Host, set_port}
use speutils_debs.Fifo.Select.{advance}
use speutils_debs.Fifo.Select.Turn.{IsFree, advance-lt}
use speutils_debs.Fifo.Submit.{internal_handle, fifo_noop, fifo_addition}
use speutils_debs.Fifo.Submit.Kick.{SomeStored}
use speutils_debs.Fifo.Tasks.Turns.{IsHost, Given, fifo_noop-Given, fifo_addition-Given}
use speutils_debs.Fifo.Tasks.Repeat.{noop_loop, addition_loop, open_free}
pub mod Loops

-- How many tasks a queue has when `q` rounds of turns are over and the last task of another one went to
-- the queue `c`; a round begins behind the first queue.
abbrev pub share : (q c i : ℕ) → ℕ
share q c zero = q
share q c (suc i) = if ltb i c then q + 1 else q

pub record IsEven (size q c : ℕ) (host : Host) : Type 0 where
  pub current : host.current_spe ≡ c
  pub sizes : (i : ℕ) (p : Port) → get_elem? host.ports i ≡ some p → p.ring.size ≡ size
  pub shares : (i : ℕ) (p : Port) → get_elem? host.ports i ≡ some p → used p.ring ≡ share q c i

-- The turn behind (q, c), for `n` queues.
abbrev pub next_q : (n q c : ℕ) → ℕ
next_q n q c = if leb n (c + 1) then q + 1 else q

pub next-count : (n q c : ℕ) → c < n → next_q n q c * n + advance n c ≡ q * n + c + 1
unfolding advance
next-count n q c lt = elim (Bool-cases (leb n (c + 1))) [
  | inl over ↦ let last : n ≡ c + 1 = ground arith in rw over (rw last (omega arith))
  | inr on ↦ rw on (omega arith)
]

share-next :
    (n q c i : ℕ)
    → c < n
    → i < n
    → i ≢ advance n c
    → share (next_q n q c) (advance n c) i ≡ share q c i
unfolding advance
share-next n q c zero lt below ne = ground (arith, ne)
share-next n q c (suc i) lt below ne = ground (arith, ne)

share-turn : (n q c : ℕ) → c < n → share (next_q n q c) (advance n c) (advance n c) ≡ q + 1
unfolding advance
share-turn n q c lt = ground arith

share-before : (n q c : ℕ) → c < n → share q c (advance n c) ≡ q
unfolding advance
share-before n q c lt = ground arith

module _ {size q c : ℕ} {host : Host} (is : IsHost host) (even : IsEven size q c host)
    (room : q + 1 < size) where
  unfoldable pub here : ℕ
  here = advance host.spes c

  pub below : c < host.spes
  below = omega (arith, is.current_in, even.current)

  here-lt : here < length host.ports
  unfolding here
  here-lt = omega (arith, advance-lt host.spes c below, is.all_spes)

  pub here-IsFree : IsFree host.ports here true
  unfolding here
  here-IsFree =
      let (p, holds) = get_elem?-IsSome host.ports here here-lt in
      let none_yet = share-before host.spes q c below in
      let some_room : 0 < p.ring.size - 1 - used p.ring =
        omega (arith, even.sizes _ p holds, even.shares _ p holds, none_yet, room) in
      (p, holds, open_free p (is.ready _ p holds) some_room)

  pub here-below : here < host.spes
  here-below = omega (arith, here-lt, is.all_spes)

  wrap-here : wrap host.spes (here + 0) ≡ here
  wrap-here = ground (arith, here-below)

  module _ {stored : List Bool} {command handle : ℕ} {args : List ℕ} {out : Outcome Host}
      (g : Given host stored command handle args out) where
    turn-here : advance host.spes host.current_spe ≡ here
    unfolding here
    turn-here = ap (advance host.spes) even.current

    Given-here : g.spe ≡ here
    Given-here = elim (ℕ_discrete g.distance 0) [
      | yes none_passed ↦
          g.in_turn
          ∙ ap (λ k. wrap host.spes (advance host.spes host.current_spe + k)) none_passed
          ∙ ap (λ k. wrap host.spes (k + 0)) turn-here
          ∙ wrap-here
      | no some_passed ↦
          let (p, holds, free) = here-IsFree in
          let (r, at, full) =
            subst (λ i. IsFree host.ports i false)
              (ap (λ k. wrap host.spes (k + 0)) turn-here ∙ wrap-here)
              (g.passed 0 (omega (arith, some_passed))) in
          let same : p ≡ r = cc in absurd (ground (arith, same, free, full))
    ]

    unfoldable pub after : Host
    after = set_port (record host { current_spe = g.spe }) g.spe g.after

    -- What the queue at an index is after the task.
    after-at :
        (i : ℕ) (r : Port)
        → get_elem? after.ports i ≡ some r
        → (r.ring.size ≡ size) × (used r.ring ≡ share (next_q host.spes q c) here i)
    unfolding after here set_port
    after-at i r at = elim (ℕ_discrete g.spe i) [
      | yes now ↦
          let there : get_elem? (set host.ports g.spe g.after) g.spe ≡ some r =
            ap (get_elem? (set host.ports g.spe g.after)) now ∙ at in
          let new =
            get_elem?-set_self host.ports g.spe g.after (get_elem?-lt host.ports g.spe g.holds) in
          let same : g.after ≡ r = cc in
          let grows = inc_front-used (is.ready g.spe g.before g.holds).settled.valid g.free in
          let old = even.shares g.spe g.before g.holds in
          let moved : r.ring ≡ inc_front g.before.ring =
            ap (λ (p : Port). p.ring) (sym same) ∙ g.moved in
          let one_more : used r.ring ≡ used g.before.ring + 1 = ap (λ r. used r) moved ∙ grows.1 in
          let at_here : i ≡ advance host.spes c = sym now ∙ Given-here in
          (
            ap (λ (r : RingContext). r.size) moved ∙ grows.3 ∙ even.sizes g.spe g.before g.holds,
            one_more
                ∙ ap (λ k. k + 1)
                    (old ∙ ap (share q c) Given-here ∙ share-before host.spes q c below)
                ∙ sym (
                    ap (share (next_q host.spes q c) (advance host.spes c)) at_here
                    ∙ share-turn host.spes q c below),
          )
      | no away ↦
          let old : get_elem? host.ports i ≡ some r =
            sym (get_elem?-set_ne host.ports g.spe i g.after away) ∙ at in
          let lt : i < host.spes = omega (arith, get_elem?-lt host.ports i old, is.all_spes) in
          (
            even.sizes i r old,
            even.shares i r old
                ∙ sym (share-next host.spes q c i below lt (λ e. away (Given-here ∙ sym e))),
          )
    ]

    pub Given-IsEven : IsEven size (next_q host.spes q c) here after
    unfolding after set_port
    Given-IsEven = record {
      current = Given-here;
      sizes = λ i r at. (after-at i r at).0;
      shares = λ i r at. (after-at i r at).1;
    }
