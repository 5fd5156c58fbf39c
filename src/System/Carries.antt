-- ===== src/System/Carries.antt =====
-- Which task is where: in the task memory, in the pipeline, and, as its result, in the acknowledgements.
use mathlib.Core.Path.{subst}
use native.Mathlib.Decide.{ℕ_discrete}
use speutils_debs.Base.{
  ℕ, suc, ◌+◌, ◌≤◌, ◌<◌, ◌≡◌, refl, sym, ap, ◌∙◌, inl, inr, true, false, List, some, arith,
  get_elem?, set, length, u32, if◌then◌else◌, get_elem?-set_self, get_elem?-set_ne, Bool-cases,
}
use speutils_debs.Fifo.Port.{Ack, Slot}
use speutils_debs.Spu.State.{PipeEntry}
use speutils_debs.Spu.Series.{sum_of}
use speutils_debs.Spu.Retire.{IsAdd}
use speutils_debs.Spu.Drain.Flight.{bit}
use speutils_debs.System.Place.{place, place-lt, place-ne}
use speutils_debs.System.Invariant.{Counts, Ordered}

-- The words that fifo_addition writes behind the handle.
pub record IsTask (task : Slot) (adds : ℕ) : Type 0 where
  pub third : get_elem? task 2 ≡ some (u32 adds)
  pub fourth : get_elem? task 3 ≡ some 1
  pub fifth : get_elem? task 4 ≡ some 2

-- The pipeline carries, under each number, the task that was submitted just before it. `a` says what
-- the tasks add, and `P` what the variable `res` of stage3 started with.
abbrev pub For : (ℕ → ℕ) → ℕ → Slot → Type 0
For a n task = (k : ℕ) → 0 < k → n ≡ suc k → IsTask task (a k)

abbrev pub Done : (ℕ → Type 0) → (ℕ → ℕ) → ℕ → ℕ → Type 0
Done P a n retval =
    (k : ℕ) → 0 < k → n ≡ suc k → (res : ℕ) × P res × (retval ≡ sum_of res (u32 (a k)) 1 2)

pub record Carried (P : ℕ → Type 0) (a : ℕ → ℕ) (size : ℕ) (c : Counts) (tasks : List Slot)
    (acks : List Ack) (e0 e1 e2 e3 : PipeEntry) : Type 0 where
  pub slots :
      (k : ℕ)
      → 0 < k
      → k ≤ c.submitted
      → c.submitted < k + size
      → (slot : Slot) × (get_elem? tasks (place size k) ≡ some slot) × IsTask slot (a k)
  pub entry0 : e0.active ≡ true → For a c.fetched e0.task
  pub entry1 :
      e1.active ≡ true → For a (c.acked + bit e3.active + bit e2.active + bit e1.active) e1.task
  pub entry2 : e2.active ≡ true → For a (c.acked + bit e3.active + bit e2.active) e2.task
  pub done3 : e3.active ≡ true → Done P a (c.acked + bit e3.active) e3.ack.retval
  pub answers :
      (n : ℕ)
      → c.collected < n
      → n ≤ c.acked
      → (ack : Ack) × (get_elem? acks (place size n) ≡ some ack) × Done P a n ack.retval

IsAdd-sum :
    (res adds : ℕ) (task : Slot) (result : ℕ)
    → IsTask task adds
    → IsAdd res task result
    → result ≡ sum_of res (u32 adds) 1 2
IsAdd-sum res adds task result t added =
    let third : some added.adds ≡ some (u32 adds) = sym added.third ∙ t.third in
    let fourth : some added.a ≡ some 1 = sym added.fourth ∙ t.fourth in
    let fifth : some added.b ≡ some 2 = sym added.fifth ∙ t.fifth in
    let same : added.adds ≡ u32 adds = cc in
    let one : added.a ≡ 1 = cc in
    let two : added.b ≡ 2 = cc in added.total ∙ rw (same, one, two) refl

module _ (P : ℕ → Type 0) (a : ℕ → ℕ) (size : ℕ) (c : Counts) (tasks : List Slot) (acks : List Ack)
    (e0 e1 e2 e3 : PipeEntry) (o : Ordered size c)
    (h : Carried P a size c tasks acks e0 e1 e2 e3) where
  some_slots : 0 < size
  some_slots = omega (arith, o.ca, o.af, o.fs, o.room)

  -- A task is submitted.
  pub submit-Carried :
      (front : ℕ) (new : Slot)
      → front ≡ place size (suc c.submitted)
      → front < length tasks
      → IsTask new (a (suc c.submitted))
      → Carried P a size
          (record c { submitted = suc c.submitted })
          (set tasks front new)
          acks
          e0
          e1
          e2
          e3
  submit-Carried front new at inside is = record {
    slots = λ k some_k le near. elim (ℕ_discrete k (suc c.submitted)) [
      | yes last ↦ (
        new,
        ap (get_elem? (set tasks front new)) (ap (place size) last ∙ sym at)
            ∙ get_elem?-set_self tasks front new inside,
        subst (λ n. IsTask new (a n)) (sym last) is,
      )
      | no earlier ↦
          let (slot, holds, old) =
            h.slots k some_k (omega (arith, le, earlier)) (omega (arith, near)) in
          let apart =
            place-ne size some_slots k (suc c.submitted) (omega (arith, le, earlier)) near in
          (
            slot,
            get_elem?-set_ne tasks front (place size k) new (λ q. apart (sym q ∙ at)) ∙ holds,
            old,
          )
    ];
    entry0 = h.entry0;
    entry1 = h.entry1;
    entry2 = h.entry2;
    done3 = h.done3;
    answers = h.answers;
  }

  -- The oldest acknowledgement is taken back.
  pub collect-Carried :
      (back : ℕ) (cleared : Ack)
      → back ≡ place size (suc c.collected)
      → Carried P a size
          (record c { collected = suc c.collected })
          tasks
          (set acks back cleared)
          e0
          e1
          e2
          e3
  collect-Carried back cleared at = record {
    slots = h.slots;
    entry0 = h.entry0;
    entry1 = h.entry1;
    entry2 = h.entry2;
    done3 = h.done3;
    answers = λ n far le.
        let (ack, holds, done) = h.answers n (omega (arith, far)) le in
        let apart =
          place-ne size some_slots (suc c.collected) n far
            (omega (arith, le, o.af, o.fs, o.room)) in
        (
          ack,
          get_elem?-set_ne acks back (place size n) cleared (λ q. apart (sym at ∙ q)) ∙ holds,
          done,
        );
  }

  -- A task is fetched, or none is there.
  pub fetch-Carried :
      (f0 : PipeEntry) (in_back : ℕ)
      → e0.active ≡ false
      → in_back ≡ place size c.fetched
      → c.fetched + bit f0.active ≤ c.submitted
      → (f0.active ≡ true → get_elem? tasks in_back ≡ some f0.task)
      → Carried P a size (record c { fetched = c.fetched + bit f0.active }) tasks acks f0 e1 e2 e3
  fetch-Carried f0 in_back off at le holds = record {
    slots = h.slots;
    entry0 = λ on k some_k e.
        let own : c.fetched ≡ k = omega (arith, ap bit on, e) in
        let (slot, there, is) =
          h.slots k some_k (omega (arith, own, le)) (omega (arith, own, o.ca, o.af, o.room)) in
        let same : some slot ≡ some f0.task =
          sym there ∙ ap (get_elem? tasks) (sym (at ∙ ap (place size) own)) ∙ holds on in
        let eq : slot ≡ f0.task = cc in subst (λ t. IsTask t (a k)) eq is;
    entry1 = h.entry1;
    entry2 = h.entry2;
    done3 = h.done3;
    answers = h.answers;
  }

  -- The other stages.
  pub finish-Carried :
      (idle3 w2 : PipeEntry) (res : ℕ) (after : List Ack)
      → idle3.active ≡ false
      → P res
      → c.fetched ≡ c.acked + bit e3.active + bit e2.active + bit e1.active + bit e0.active
      → w2.active ≡ e2.active
      → (e2.active ≡ true → IsAdd res e2.task w2.ack.retval)
      → after ≡ (if e3.active then set acks e3.entry e3.ack else acks)
      → (e3.active ≡ true → e3.entry ≡ place size (c.acked + bit e3.active))
      → length acks ≡ size
      → Carried P a size (record c { acked = c.acked + bit e3.active }) tasks after idle3 e0 e1 w2
  finish-Carried idle3 w2 res after off small flight moved adds left entry room = record {
    slots = h.slots;
    entry0 = λ on. absurd (cc);
    entry1 = λ on k some_k e. h.entry0 on k some_k (omega (arith, flight, ap bit moved, e));
    entry2 = λ on k some_k e. h.entry1 on k some_k (omega (arith, ap bit moved, e));
    done3 = λ on k some_k e.
        let was : e2.active ≡ true = sym moved ∙ on in
        let t = h.entry2 was k some_k (omega (arith, ap bit moved, e)) in
        (res, small, IsAdd-sum res (a k) e2.task w2.ack.retval t (adds was));
    answers = rw left (elim (Bool-cases e3.active) [
      | inl on ↦
          let one : c.acked + bit e3.active ≡ suc c.acked = omega (arith, ap bit on) in
          let at : e3.entry ≡ place size (suc c.acked) = entry on ∙ ap (place size) one in
          rw one (
            rw on (
              answered at (omega (arith, flight, ap bit on))
                (λ k some_k e. h.done3 on k some_k (one ∙ e))))
      | inr none_now ↦
          let still : c.acked + bit e3.active ≡ c.acked = omega (arith, ap bit none_now) in
          rw still (rw none_now h.answers)
    ]);
  }
    where
      answered :
          e3.entry ≡ place size (suc c.acked)
          → suc c.acked ≤ c.fetched
          → Done P a (suc c.acked) e3.ack.retval
          → (n : ℕ) → c.collected < n
          → n ≤ suc c.acked
          → (ack : Ack) × (get_elem? (set acks e3.entry e3.ack) (place size n) ≡ some ack)
            × Done P a n ack.retval
      answered at more done n far le = elim (ℕ_discrete n (suc c.acked)) [
        | yes last ↦
            let inside : e3.entry < length acks =
              rw (at, room) (place-lt size some_slots (suc c.acked)) in
            (
              e3.ack,
              ap (get_elem? (set acks e3.entry e3.ack)) (ap (place size) last ∙ sym at)
                  ∙ get_elem?-set_self acks e3.entry e3.ack inside,
              subst (λ m. Done P a m e3.ack.retval) (sym last) done,
            )
        | no earlier ↦
            let (ack, holds, old) = h.answers n far (omega (arith, le, earlier)) in
            let apart =
              place-ne size some_slots n (suc c.acked) (omega (arith, le, earlier))
                (omega (arith, far, more, o.fs, o.room)) in
            (
              ack,
              get_elem?-set_ne acks e3.entry (place size n) e3.ack (λ q. apart (sym q ∙ at))
                  ∙ holds,
              old,
            )
      ]
