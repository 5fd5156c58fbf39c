-- ===== src/Fifo/Tasks/Repeat.antt =====
-- tst/task_iface.c: its loops of fifoNoop and of fifo_addition, on queues with room for the tasks.
use mathlib.Core.Path.{subst}
use native.Mathlib.Decide.{ℕ_discrete}
use speutils_debs.Base.{
  ℕ, zero, suc, ◌+◌, ◌-◌, ◌≤◌, ◌<◌, ◌≡◌, refl, ap, ◌∙◌, Bool, true, some, List, [], ◌∷◌, arith,
  get_elem?, set, Outcome, ok, ◌>>=◌, get_elem?-lt,
}
use speutils_debs.Messages
use speutils_debs.Ring.{RingContext, has_free}
use speutils_debs.Ring.Count.{used, inc_front-used, has_free-has_remaining_iff}
use speutils_debs.Fifo.Port.{Port, Host, set_port}
use speutils_debs.Fifo.Select.Turn.{IsFree}
use speutils_debs.Fifo.Submit.{internal_handle, fifo_noop, fifo_addition}
use speutils_debs.Fifo.Submit.Kick.{SomeStored}
use speutils_debs.Fifo.Tasks.Turns.{IsHost, IsOpen, Given, fifo_noop-Given, fifo_addition-Given}

-- for (i = 0; i < spes*ops ; i++) fifoNoop(); `tries` has what the conditional stores answer in each
-- round.
unfoldable pub noop_loop : (rounds i fuel : ℕ) → (ℕ → List Bool) → Host → Outcome Host
noop_loop zero i fuel tries host = ok host
noop_loop (suc rounds) i fuel tries host = do
  next ← fifo_noop fuel (tries i) host
  noop_loop rounds (i + 1) fuel tries next

-- for (i = 0; i < spes*ops ; i++) fifo_addition(arg);
unfoldable pub addition_loop : (rounds i fuel arg : ℕ) → (ℕ → List Bool) → Host → Outcome Host
addition_loop zero i fuel arg tries host = ok host
addition_loop (suc rounds) i fuel arg tries host = do
  next ← fifo_addition fuel (tries i) arg host
  addition_loop rounds (i + 1) fuel arg tries next

abbrev pub total : (Port → ℕ) → List Port → ℕ
total f [] = 0
total f (p ∷ ps) = f p + total f ps

-- The slots of a queue that a task can still take.
abbrev pub room : Port → ℕ
room p = p.ring.size - 1 - used p.ring

abbrev pub occupied : Port → ℕ
occupied p = used p.ring

total-set :
    (f : Port → ℕ) (ps : List Port) (i : ℕ) {p : Port} (q : Port)
    → get_elem? ps i ≡ some p
    → total f (set ps i q) + f p ≡ total f ps + f q
total-set f [] i q e = absurd (cc)
total-set f (r ∷ ps) zero {p} q e = let same : some r ≡ some p = e in ground (arith, same)
total-set f (r ∷ ps) (suc i) q e = omega (arith, total-set f ps i q e)

total-some :
    (f : Port → ℕ) (ps : List Port)
    → 0 < total f ps
    → (i : ℕ) × (p : Port) × (get_elem? ps i ≡ some p) × (0 < f p)
total-some f [] lt = absurd (omega (arith, lt))
total-some f (p ∷ ps) lt = elim (ℕ_discrete (f p) 0) [
  | yes none_here ↦
      let (i, q, holds, some_there) = total-some f ps (omega (arith, none_here, lt)) in
      (suc i, q, holds, some_there)
  | no some_here ↦ (0, p, refl, omega (arith, some_here))
]

-- A host behind some tasks.
pub record Grown (host : Host) (rounds : ℕ) (out : Outcome Host) : Type 0 where
  pub after : Host
  pub returns : out ≡ ok after
  pub kept : IsHost after
  pub same : after.spes ≡ host.spes
  pub more : total occupied after.ports ≡ total occupied host.ports + rounds
  pub less : total room after.ports + rounds ≡ total room host.ports

pub open_free : (p : Port) → IsOpen p → 0 < room p → has_free p.ring ≡ true
open_free p o lt = (has_free-has_remaining_iff o.settled.valid).0.1 (omega (arith, lt))

pub some-IsFree :
    (host : Host)
    → IsHost host
    → 0 < total room host.ports
    → (i : ℕ) × (i < host.spes) × IsFree host.ports i true
some-IsFree host is lt =
    let (i, p, holds, has) = total-some room host.ports lt in
    (
      i,
      omega (arith, get_elem?-lt host.ports i holds, is.all_spes),
      (p, holds, open_free p (is.ready i p holds) has),
    )

Given-Grown :
    (host : Host) (stored : List Bool) (command handle : ℕ) (args : List ℕ) (out : Outcome Host)
    → IsHost host
    → Given host stored command handle args out
    → Grown host 1 out
unfolding set_port
Given-Grown host stored command handle args out is g =
    let ready = is.ready g.spe g.before g.holds in
    let grows = inc_front-used ready.settled.valid g.free in
    let free = (has_free-has_remaining_iff ready.settled.valid).0.0 g.free in
    let now : used g.after.ring ≡ used g.before.ring + 1 = ap (λ r. used r) g.moved ∙ grows.1 in
    let size : g.after.ring.size ≡ g.before.ring.size =
      ap (λ (r : RingContext). r.size) g.moved ∙ grows.3 in
    record {
      after = _;
      returns = g.returns;
      kept = g.kept;
      same = refl;
      more = omega (arith, total-set occupied host.ports g.spe g.after g.holds, now);
      less = omega (arith, total-set room host.ports g.spe g.after g.holds, now, size, free);
    }

Grown-again :
    {host : Host} {rounds : ℕ} {one : Outcome Host} (rest : Host → Outcome Host)
    → (g : Grown host 1 one) → Grown g.after rounds (rest g.after)
    → Grown host (suc rounds) (one >>= rest)
Grown-again {host} rest g later = record {
  after = later.after;
  returns = rw g.returns later.returns;
  kept = later.kept;
  same = later.same ∙ g.same;
  more = omega (arith, later.more, g.more);
  less = omega (arith, later.less, g.less);
}

module _ (tries : ℕ → List Bool) (answers : (i : ℕ) → SomeStored (tries i)) where
  -- A task on a host with room, in a loop whose fuel is the number of queues.
  noop-Grown :
      (i : ℕ) (host : Host)
      → IsHost host
      → 0 < total room host.ports
      → Grown host 1 (fifo_noop host.spes (tries i) host)
  noop-Grown i host is lt =
      let (k, below, free) = some-IsFree host is lt in
      Given-Grown host (tries i) Messages.noop internal_handle [] _ is
        (fifo_noop-Given (tries i) host k (answers i) is below free)

  pub addition-Grown :
      (i arg : ℕ) (host : Host)
      → IsHost host
      → 0 < total room host.ports
      → Grown host 1 (fifo_addition host.spes (tries i) arg host)
  addition-Grown i arg host is lt =
      let (k, below, free) = some-IsFree host is lt in
      Given-Grown host (tries i) Messages.add internal_handle (arg ∷ 1 ∷ 2 ∷ []) _ is
        (fifo_addition-Given (tries i) host k arg (answers i) is below free)

  nothing-Grown : (host : Host) → IsHost host → Grown host 0 (ok host)
  nothing-Grown host is = record {
    after = host;
    returns = refl;
    kept = is;
    same = refl;
    more = omega arith;
    less = omega arith;
  }

  noop_loop-Grown :
      (rounds i : ℕ) (host : Host)
      → IsHost host
      → rounds ≤ total room host.ports
      → Grown host rounds (noop_loop rounds i host.spes tries host)
  unfolding noop_loop
  noop_loop-Grown zero i host is le = nothing-Grown host is
  noop_loop-Grown (suc rounds) i host is le =
      let g = noop-Grown i host is (omega (arith, le)) in
      Grown-again (noop_loop rounds (i + 1) host.spes tries) g (
        subst (λ fuel. Grown g.after rounds (noop_loop rounds (i + 1) fuel tries g.after)) g.same
          (noop_loop-Grown rounds (i + 1) g.after g.kept (omega (arith, le, g.less))))

  addition_loop-Grown :
      (rounds i arg : ℕ) (host : Host)
      → IsHost host
      → rounds ≤ total room host.ports
      → Grown host rounds (addition_loop rounds i host.spes arg tries host)
  unfolding addition_loop
  addition_loop-Grown zero i arg host is le = nothing-Grown host is
  addition_loop-Grown (suc rounds) i arg host is le =
      let g = addition-Grown i arg host is (omega (arith, le)) in
      Grown-again (addition_loop rounds (i + 1) host.spes arg tries) g (
        subst (λ fuel. Grown g.after rounds (addition_loop rounds (i + 1) fuel arg tries g.after))
          g.same
          (addition_loop-Grown rounds (i + 1) arg g.after g.kept (omega (arith, le, g.less))))

  -- On a host whose queues are in order and have room for as many tasks as there are rounds, the two
  -- loops of the interface test return, although no queue is collected meanwhile, if in each round some
  -- conditional store succeeds: each round occupies one more slot, and the queues stay in order.
  pub loops-Grown :
      (rounds arg : ℕ) (host : Host)
      → IsHost host
      → rounds ≤ total room host.ports
      → Grown host rounds (noop_loop rounds 0 host.spes tries host)
        × Grown host rounds (addition_loop rounds 0 host.spes arg tries host)
  loops-Grown rounds arg host is le =
      (noop_loop-Grown rounds 0 host is le, addition_loop-Grown rounds 0 arg host is le)
