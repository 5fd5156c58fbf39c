-- ===== src/Fifo/Tasks/Turns.antt =====
-- fifoNoop and fifo_addition on a host whose queues are in order.
use mathlib.Core.Path.{subst}
use native.Mathlib.Decide.{ℕ_discrete}
use speutils_debs.Base.{
  ℕ, ◌+◌, ◌<◌, ◌≡◌, refl, sym, ap, ◌∙◌, Bool, true, false, some, List, [], ◌∷◌, ◌++◌, arith,
  get_elem?, set, length, Outcome, ok, get_elem?-set_self, get_elem?-set_ne, get_elem?-lt,
  length-set,
}
use speutils_debs.Messages
use speutils_debs.Ring.{RingContext, inc_front, get_front, has_free}
use speutils_debs.Ring.Count.{inc_front-used}
use speutils_debs.Ring.Pending.{pending, wrap}
use speutils_debs.Fifo.Port.{Slot, Port, Host, set_port}
use speutils_debs.Fifo.Select.{advance}
use speutils_debs.Fifo.Select.Turn.{IsFree, select_fifo-turn}
use speutils_debs.Fifo.Submit.{internal_handle, fifo_noop, fifo_addition}
use speutils_debs.Fifo.Submit.Task.{HasSlot}
use speutils_debs.Fifo.Submit.Kick.{SomeStored, Submitted, submit_port}
use speutils_debs.Fifo.Queue.{submit_port-append}
use speutils_debs.Fifo.Collect.Release.{IsSettled}
use speutils_debs.Fifo.Tasks.{task, task-port, fifo_noop-task, fifo_addition-task}

-- A queue in order between two tasks, with a slot of 32 words at each of its indices.
pub record IsOpen (p : Port) : Type 0 where
  pub settled : IsSettled p
  pub kicked : p.is_kicked ≡ true
  pub slots : (i : ℕ) → i < p.ring.size → (slot : Slot) × HasSlot p i slot

pub record IsHost (host : Host) : Type 0 where
  pub all_spes : host.spes ≡ length host.ports
  pub current_in : host.current_spe < host.spes
  pub ready : (i : ℕ) (p : Port) → get_elem? host.ports i ≡ some p → IsOpen p

-- What a task does to a host: the first queue in turn that has a free slot gets it behind its occupied
-- slots.
pub record Given (host : Host) (stored : List Bool) (command handle : ℕ) (args : List ℕ)
    (out : Outcome Host) : Type 0 where
  pub spe : ℕ
  pub before : Port
  pub after : Port
  pub holds : get_elem? host.ports spe ≡ some before
  pub free : has_free before.ring ≡ true
  pub distance : ℕ
  pub in_turn : spe ≡ wrap host.spes (advance host.spes host.current_spe + distance)
  pub passed :
      (j : ℕ)
      → j < distance
      → IsFree host.ports (wrap host.spes (advance host.spes host.current_spe + j)) false
  pub moved : after.ring ≡ inc_front before.ring
  pub submits : submit_port stored command handle args before ≡ ok after
  pub appends : pending after.ring ≡ pending before.ring ++ get_front before.ring ∷ []
  pub returns : out ≡ ok (set_port (record host { current_spe = spe }) spe after)
  pub kept : IsHost (set_port (record host { current_spe = spe }) spe after)

Submitted-IsOpen :
    (command handle : ℕ) (args : List ℕ) (slot : Slot) {p q : Port}
    → IsOpen p
    → has_free p.ring ≡ true
    → Submitted command handle args p slot q
    → IsSettled q
    → IsOpen q
Submitted-IsOpen command handle args old {p} {q} ready free left settled =
    let same : q.ring.size ≡ p.ring.size =
      ap (λ (r : RingContext). r.size) left.0 ∙ (inc_front-used ready.settled.valid free).3 in
    let (new, tasks, has, words) = left.4 in
    record {
      settled = settled;
      kicked = left.2;
      slots = λ i lt. elim (ℕ_discrete (get_front p.ring) i) [
        | yes at ↦ (new, subst (λ k. HasSlot q k new) at has)
        | no away ↦
            let (slot, (holds, len)) = ready.slots i (subst (λ n. i < n) same lt) in
            (
              slot,
              (
                ap (λ (l : List Slot). get_elem? l i) tasks
                    ∙ get_elem?-set_ne p.tasks _ i new away
                    ∙ holds,
                len,
              ),
            )
      ];
    }

set_port-IsHost :
    (host : Host) (spe : ℕ) {p : Port} (q : Port)
    → IsHost host
    → get_elem? host.ports spe ≡ some p
    → IsOpen q
    → IsHost (set_port (record host { current_spe = spe }) spe q)
unfolding set_port
set_port-IsHost host spe q is holds ready = record {
  all_spes = is.all_spes ∙ sym (length-set host.ports spe q);
  current_in = omega (arith, get_elem?-lt host.ports spe holds, is.all_spes);
  ready = λ i r at. elim (ℕ_discrete spe i) [
    | yes here ↦
        let new = get_elem?-set_self host.ports spe q (get_elem?-lt host.ports spe holds) in
        let at' : get_elem? (set host.ports spe q) spe ≡ some r =
          ap (get_elem? (set host.ports spe q)) here ∙ at in
        let same : q ≡ r = cc in subst IsOpen same ready
    | no away ↦ is.ready i r (sym (get_elem?-set_ne host.ports spe i q away) ∙ at)
  ];
}

module _ (stored : List Bool) (host : Host) (i : ℕ) where
  task-Given :
      (command handle : ℕ) (args : List ℕ)
      → SomeStored stored
      → IsHost host
      → i < host.spes
      → IsFree host.ports i true
      → Given host stored command handle args (task host.spes stored command handle args host)
  task-Given command handle args tries is lt some_free =
      let (k, _, busy, (p, holds, free), selects) =
        select_fifo-turn host i is.all_spes is.current_in lt some_free in
      let spe = wrap host.spes (advance host.spes host.current_spe + k) in
      let ready = is.ready spe p holds in
      let (slot, has) =
        ready.slots (get_front p.ring) (unfold get_front in ready.settled.valid.front_in) in
      let (q, runs, left, settled, grown, _) =
        submit_port-append stored command handle args p slot tries ready.kicked has ready.settled
          free in
      record {
        spe = spe;
        before = p;
        after = q;
        holds = holds;
        free = free;
        distance = k;
        in_turn = refl;
        passed = busy;
        moved = left.0;
        submits = runs;
        appends = grown;
        returns =
            task-port host.spes stored command handle args host (record host { current_spe = spe })
              spe selects holds runs;
        kept =
            set_port-IsHost host spe q is holds
              (Submitted-IsOpen command handle args slot ready free left settled);
      }

  -- On a host whose queues are in order and one of which has a free slot, fifo_addition returns as
  -- soon as a conditional store succeeds: the first queue in turn that has a free slot gets the task
  -- ADD with its three arguments behind its occupied slots, and all queues are in order again.
  pub fifo_addition-Given :
      (adds : ℕ)
      → SomeStored stored
      → IsHost host
      → i < host.spes
      → IsFree host.ports i true
      → Given host stored Messages.add internal_handle
          (adds ∷ 1 ∷ 2 ∷ [])
          (fifo_addition host.spes stored adds host)
  fifo_addition-Given adds tries is lt free =
      subst (Given host stored Messages.add internal_handle (adds ∷ 1 ∷ 2 ∷ []))
        (sym (fifo_addition-task host.spes stored adds host))
        (task-Given Messages.add internal_handle (adds ∷ 1 ∷ 2 ∷ []) tries is lt free)

  -- On a host whose queues are in order and one of which has a free slot, fifoNoop returns as soon as a
  -- conditional store succeeds: the first queue in turn that has a free slot gets the task NOOP without
  -- arguments behind its occupied slots, and all queues are in order again.
  pub fifo_noop-Given :
      SomeStored stored
      → IsHost host
      → i < host.spes
      → IsFree host.ports i true
      → Given host stored Messages.noop internal_handle [] (fifo_noop host.spes stored host)
  fifo_noop-Given tries is lt free =
      subst (Given host stored Messages.noop internal_handle [])
        (sym (fifo_noop-task host.spes stored host))
        (task-Given Messages.noop internal_handle [] tries is lt free)
