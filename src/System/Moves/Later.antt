-- ===== src/System/Moves/Later.antt =====
-- The turn of the SPE behind stage1.
use mathlib.Core.Path.{subst}
use native.Mathlib.Decide.{ℕ_discrete}
use speutils_debs.Base.{
  ℕ, suc, ◌+◌, ◌^◌, ◌≤◌, ◌<◌, ◌≡◌, ◌≢◌, refl, sym, ap, ◌∙◌, inl, inr, true, List, arith, get_elem?,
  set, length, ok, get_elem?-set_self, get_elem?-set_ne, length-set, Bool-cases, if◌then◌else◌,
}
use speutils_debs.Messages
use speutils_debs.Fifo.Port.{Ack}
use speutils_debs.Spu.State.{PipeEntry, Manager, View, increment}
use speutils_debs.Spu.Stages.{later_stages}
use speutils_debs.Spu.Series.{sum_of}
use speutils_debs.Spu.Retire.{IsAdd, worked, idle}
use speutils_debs.Spu.Shift.{finished, later_stages-finished, finished-At}
use speutils_debs.Spu.Drain.Flight.{bit}
use speutils_debs.System.Place.{place, place-lt, place-suc, place-ne}
use speutils_debs.System.Invariant.{IsAdding, Counts, Ordered, Acks, Entry, SpuSide}

-- What stage3 computes for an entry that is active.
result_of :
    (res : ℕ) (e : PipeEntry) (adding : e.active ≡ true → IsAdding e.task)
    → (r : ℕ) × (e.active ≡ true → IsAdd res e.task r)
result_of res e adding = elim (Bool-cases e.active) [
  | inl on ↦
      let t = adding on in
      (
        sum_of res t.adds t.a t.b,
        λ again. record {
          command = t.command;
          adds = t.adds;
          a = t.a;
          b = t.b;
          third = t.third;
          fourth = t.fourth;
          fifth = t.fifth;
          total = refl;
        },
      )
  | inr off ↦ (0, λ on. absurd (cc))
]

abbrev pub counts_finished : Counts → PipeEntry → Counts
counts_finished c e3 = record c { acked = c.acked + bit e3.active }

abbrev pub Finished :
    ℕ
    → Counts
    → ℕ
    → View
    → Manager
    → PipeEntry
    → PipeEntry
    → PipeEntry
    → PipeEntry
    → Manager
    → PipeEntry
    → Type 0
Finished size c fuel v m e0 e1 e2 e3 g w2 =
    (later_stages fuel v m ≡ ok g)
    × SpuSide size (counts_finished c e3) g (idle e3) e0 e1 w2
    × Ordered size (counts_finished c e3)
    × Acks size c.collected (c.acked + bit e3.active) g.acks
    × (w2.active ≡ e2.active)
    × (w2.task ≡ e2.task)
    × (e2.active ≡ true → IsAdd v.res e2.task w2.ack.retval)
    × (g.acks ≡ (if e3.active then set m.acks e3.entry e3.ack else m.acks))

Acks-set :
    (size C A : ℕ) (acks : List Ack) (ack : Ack)
    → C ≤ A
    → A < C + size
    → Acks size C A acks
    → ack.task_id ≢ Messages.ack_clear
    → Acks size C (A + 1) (set acks (place size (A + 1)) ack)
Acks-set size C A acks ack le near has ne =
    let here = place size (A + 1) in
    let inside : here < length acks =
      subst (λ n. here < n) (sym has.room) (place-lt size (omega arith) (A + 1)) in
    record {
      room = length-set acks here ack ∙ has.room;
      set_acks = λ n far to. elim (ℕ_discrete n (A + 1)) [
        | yes at ↦ (
          ack,
          ap (λ k. get_elem? (set acks here ack) (place size k)) at
              ∙ get_elem?-set_self acks here ack inside,
          ne,
        )
        | no away ↦
            let (a, holds, set_too) = has.set_acks n far (omega (arith, to, away)) in
            let apart =
              place-ne size (omega arith) n (A + 1) (omega (arith, to, away))
                (omega (arith, far, near)) in
            (a, get_elem?-set_ne acks here (place size n) ack (λ q. apart (sym q)) ∙ holds, set_too)
      ];
      clear_acks = λ n far to.
          let (a, holds, clear) = has.clear_acks n (omega (arith, far)) to in
          let apart = place-ne size (omega arith) (A + 1) n far (omega (arith, to, le)) in
          (a, get_elem?-set_ne acks here (place size n) ack apart ∙ holds, clear);
    }

module _ (size : ℕ) (c : Counts) (fuel : ℕ) (v : View) (m : Manager) (e0 e1 e2 e3 : PipeEntry)
    (o : Ordered size c) (s : SpuSide size c m e0 e1 e2 e3)
    (has : Acks size c.collected c.acked m.acks) (small : v.res < 2 ^ 32) where
  some_slots : 0 < size
  some_slots = omega (arith, o.ca, o.af, o.fs, o.room)

  acked_le : c.acked + bit e3.active ≤ c.fetched
  acked_le = omega (arith, s.flight)

  entry3-lt : e3.active ≡ true → e3.entry < length m.acks
  entry3-lt on =
      rw (s.entry3.entry on, has.room) (place-lt size some_slots (c.acked + bit e3.active))

  finished-Acks :
      (result : ℕ) → Acks size c.collected (c.acked + bit e3.active) (finished m e2 e3 result).acks
  unfolding finished
  finished-Acks result = elim (Bool-cases e3.active) [
    | inl on ↦
        let one : c.acked + bit e3.active ≡ c.acked + 1 = omega (arith, ap bit on) in
        let at : e3.entry ≡ place size (c.acked + 1) = s.entry3.entry on ∙ ap (place size) one in
        rw one (
          rw on (
            rw at (
              Acks-set size c.collected c.acked m.acks e3.ack o.ca
                (omega (arith, acked_le, one, o.fs, o.room)) has s.entry3.answers)))
    | inr off ↦
        let none_more : c.acked + bit e3.active ≡ c.acked = omega (arith, ap bit off) in
        rw none_more (rw off has)
  ]

  finished-out :
      (result : ℕ) → (finished m e2 e3 result).out_back ≡ place size (c.acked + bit e3.active)
  unfolding finished increment
  finished-out result =
      let step = place-suc size some_slots c.acked in
      let one : c.acked + 1 ≡ suc c.acked = omega arith in
      elim (Bool-cases e3.active) [
        | inl on ↦
            let more : c.acked + bit e3.active ≡ suc c.acked = omega (arith, ap bit on) in
            rw more (rw on (rw (s.out, s.same) (sym step)))
        | inr off ↦
            let none_more : c.acked + bit e3.active ≡ c.acked = omega (arith, ap bit off) in
            rw none_more (rw off s.out)
      ]

  Entry-worked : (n result : ℕ) → Entry size n e2 → Entry size n (worked e2 result)
  Entry-worked n result e = record {
    tag = e.tag;
    answers = elim (Bool-cases e2.active) [ inl on ↦ rw on e.answers | inr off ↦ rw off e.answers ];
    entry = e.entry;
    adding = e.adding;
  }

  pub finish-Finished : (g : Manager) × (w2 : PipeEntry) × Finished size c fuel v m e0 e1 e2 e3 g w2
  unfolding finished
  finish-Finished =
      let (result, adds2) = result_of v.res e2 s.entry2.adding in
      let (at0, at1, at2, at3, four, word) =
        finished-At m e1 e2 e3 e0 result s.word s.four s.at0 s.at1 in
      (
        finished m e2 e3 result,
        worked e2 result,
        (
          later_stages-finished fuel v m e1 e2 e3 result small s.at1 s.at2 s.at3
              (λ on. (s.entry1.adding on).command) adds2 entry3-lt,
          record {
            at0 = at0;
            at1 = at1;
            at2 = at2;
            at3 = at3;
            four = four;
            word = word;
            same = s.same;
            fetch = s.fetch;
            out = finished-out result;
            idle_front = s.idle_front;
            flight = omega (arith, s.flight);
            entry3 = Entry-worked (c.acked + bit e3.active + bit e2.active) result s.entry2;
            entry2 = s.entry1;
            entry1 = subst (λ n. Entry size n e0) s.flight s.entry0;
            entry0 = record {
              tag = s.entry3.tag;
              answers = s.entry3.answers;
              entry = λ on. absurd (cc);
              adding = λ on. absurd (cc);
            };
          },
          record {
            ca = omega (arith, o.ca);
            af = acked_le;
            fs = o.fs;
            room = o.room;
            word = o.word;
          },
          finished-Acks result,
          refl,
          refl,
          λ on. rw on (adds2 on),
          refl,
        ),
      )
