-- ===== src/Spu/Drain/Round.antt =====
-- One round of the pipeline in the middle of a batch.
use mathlib.Core.Path.{subst, ap₂}
use native.Mathlib.Decide.{ℕ_discrete}
use speutils_debs.Base.{
  ℕ, suc, ◌+◌, ◌-◌, ◌≤◌, ◌<◌, ◌≡◌, ◌≢◌, refl, sym, ap, ◌∙◌, Bool, true, false, not, List, arith,
  ◌==◌, if◌then◌else◌, get_elem?, set, length, ok, get_elem?-set_self, get_elem?-set_ne, length-set,
}
use speutils_debs.Fifo.Port.{Ack}
use speutils_debs.Spu.State.{PipeEntry, Manager, increment}
use speutils_debs.Spu.Stages.{pass}
use speutils_debs.Spu.Retire.{IsAdd, worked, idle}
use speutils_debs.Spu.Shift.{finished, pass-finished, finished-At}
use speutils_debs.Spu.Drain.Flight.{
  bit, Batch, place, IsBatch, Carries, Acked, Flight, increment-place, place-lt, place-injective,
}
use speutils_debs.Spu.Drain.Load.{stage1-Loaded}

-- What stage4 does to the acknowledgements and to out_back, for an entry that is active or not.
Acked-step :
    (b : Batch) (acks : List Ack) (o : ℕ) (on : Bool) (entry : ℕ) (ack : Ack)
    → IsBatch b
    → length acks ≡ b.size
    → o + bit on ≤ b.tasks
    → (on ≡ true → entry ≡ place b (o + bit on))
    → (on ≡ true → ack.retval ≡ b.result (o + bit on - 1))
    → ((k : ℕ) → k < o → Acked b acks k)
    → (k : ℕ) → k < o + bit on
    → Acked b (if on then set acks entry ack else acks) k
Acked-step b acks o false entry ack is room le at_x done old k lt = old k (omega arith)
Acked-step b acks o true entry ack is room le at_x done old k lt = elim (ℕ_discrete k o) [
  | yes new ↦
      let here : place b (suc k) ≡ entry = ap (place b) (omega arith) ∙ sym (at_x refl) in
      let inside : entry < length acks =
        rw (at_x refl, room) (place-lt b (o + 1) is.start_in (omega (arith, is.few))) in
      (
        ack,
        ap (get_elem? (set acks entry ack)) here ∙ get_elem?-set_self acks entry ack inside,
        done refl ∙ ap b.result (omega arith),
      )
  | no ne ↦
      let (a, holds, retval) = old k (omega arith) in
      let apart : entry ≢ place b (suc k) = λ q. ne (
        omega (
          arith,
          place-injective b (o + 1) (suc k) is.start_in (omega (arith, is.few))
              (omega (arith, is.few)) (sym (at_x refl) ∙ q),
        )) in
      (a, get_elem?-set_ne acks entry (place b (suc k)) ack apart ∙ holds, retval)
]

out-step :
    (b : Batch) (o : ℕ) (on : Bool) {out max : ℕ}
    → IsBatch b
    → max ≡ b.size
    → out ≡ place b o
    → o + bit on ≤ b.tasks
    → (if on then increment out max else out) ≡ place b (o + bit on)
out-step b o false is same at_o le = at_o ∙ ap (place b) (omega arith)
out-step b o true is same at_o le =
    ap₂ increment at_o same ∙ increment-place b o is.start_in (omega (arith, is.few))

length-step :
    (on : Bool) (acks : List Ack) (entry : ℕ) (ack : Ack)
    → length (if on then set acks entry ack else acks) ≡ length acks
length-step true acks entry ack = length-set acks entry ack
length-step false acks entry ack = refl

-- The stages behind the first.
module _ (b : Batch) (one : Manager) (o : ℕ) (f0 e1 e2 e3 : PipeEntry) (is : IsBatch b)
    (f : Flight b one o f0 e1 e2 e3) where
  abbrev result_of : ℕ
  result_of = b.result (o + bit e3.active + bit e2.active - 1)

  abbrev after : Manager
  after = finished one e2 e3 result_of

  adds_at :
      (e : PipeEntry) (x : ℕ)
      → Carries b e x
      → x ≤ b.tasks
      → e.active ≡ true
      → IsAdd b.view.res e.task (b.result (x - 1))
  adds_at e x carry le on =
      let (_, same, pos) = carry on in
      subst (λ t. IsAdd b.view.res t (b.result (x - 1))) (sym same) (is.adds (x - 1) (omega arith))

  room_at : e3.active ≡ true → e3.entry < length one.acks
  room_at on =
      let (at_x, _, _) = f.carry3 on in
      rw (at_x, f.room) (place-lt b (o + bit e3.active) is.start_in (omega (arith, f.le, is.few)))

  after-Acked : (k : ℕ) → k < o + bit e3.active → Acked b after.acks k
  unfolding finished
  after-Acked =
      Acked-step b one.acks o e3.active e3.entry e3.ack is f.room (omega (arith, f.le))
        (λ on. (f.carry3 on).0) f.done3 f.acked

  out_after : after.out_back ≡ place b (o + bit e3.active)
  unfolding finished
  out_after = out-step b o e3.active is f.same f.out (omega (arith, f.le))

  after-Flight : Flight b after (o + bit e3.active) (idle e3) f0 e1 (worked e2 result_of)
  unfolding finished
  after-Flight =
      let (at0, at1, at2, at3, four, word) =
        finished-At one e1 e2 e3 f0 result_of f.word f.four f.at0 f.at1 in
      record {
        at0 = at0;
        at1 = at1;
        at2 = at2;
        at3 = at3;
        four = four;
        word = word;
        same = f.same;
        room = length-step e3.active one.acks e3.entry e3.ack ∙ f.room;
        out = out_after;
        fetch = f.fetch ∙ ap (place b) (omega arith);
        le = omega (arith, f.le);
        carry3 = f.carry2;
        carry2 = f.carry1;
        carry1 = f.carry0;
        carry0 = λ on. absurd (cc);
        done3 = λ on.
            ap (λ (t : Bool). (if t then record (e2.ack) { retval = result_of } else e2.ack).retval)
              on;
        acked = after-Acked;
      }

-- A round in the middle of a batch: it succeeds, acknowledges the task of the last entry, if that is
-- active, moves every other entry one stage on and fetches the next task, if one is left.
pub pass-Flight :
    (fuel : ℕ) (b : Batch) (m : Manager) (o : ℕ) (e0 e1 e2 e3 : PipeEntry)
    → IsBatch b
    → Flight b m o e0 e1 e2 e3
    → e0.active ≡ false
    → (g : Manager) × (f0 w2 : PipeEntry) × (pass fuel b.view m ≡ ok g)
      × Flight b g (o + bit e3.active) (idle e3) f0 e1 w2
      × (g.front ≡ place b b.tasks)
      × (f0.active ≡ not (o + bit e3.active + bit e2.active + bit e1.active == b.tasks))
      × (w2.active ≡ e2.active)
pass-Flight fuel b m o e0 e1 e2 e3 is f off =
    let (one, f0, loaded) = stage1-Loaded b m o e0 e1 e2 e3 is f off in
    let (runs, f', front, active) = loaded in
    let result = b.result (o + bit e3.active + bit e2.active - 1) in
    (
      finished one e2 e3 result,
      f0,
      worked e2 result,
      pass-finished fuel b.view one e1 e2 e3 result m is.small runs f'.at1 f'.at2 f'.at3
          (λ on.
            (adds_at b one o f0 e1 e2 e3 is f' e1 _ f'.carry1 (omega (arith, f'.le)) on).command)
          (adds_at b one o f0 e1 e2 e3 is f' e2 _ f'.carry2 (omega (arith, f'.le)))
          (room_at b one o f0 e1 e2 e3 is f'),
      after-Flight b one o f0 e1 e2 e3 is f',
      unfold finished in front,
      active,
      refl,
    )
