-- ===== src/Spu/Drain/Finish.antt =====
-- The loop of the pipeline on a batch: its rounds until every task is acknowledged.
use native.Mathlib.Decide.{ℕ_discrete}
use speutils_debs.Base.{
  ℕ, zero, suc, ◌∷◌, ◌+◌, ◌-◌, ◌^◌, ◌≤◌, ◌<◌, ◌≡◌, ◌≢◌, refl, sym, ap, ◌∙◌, Bool, false, not, List,
  arith, ◌==◌, if◌then◌else◌, length, replicate, ok, ltb,
}
use speutils_debs.Spu.State.{PipeEntry, Manager, View}
use speutils_debs.Spu.Stages.{pipeline, pass}
use speutils_debs.Spu.Retire.{At, idle}
use speutils_debs.Spu.Drain.Flight.{
  bit, Batch, place, IsBatch, Carries, Acked, Flight, place-injective,
}
use speutils_debs.Spu.Drain.Round.{pass-Flight}

-- The rounds that are still needed, when `o` tasks are acknowledged.
rank : Batch → ℕ → Bool → Bool → Bool → ℕ
rank b o b1 b2 b3 =
    if ltb (o + bit b3 + bit b2 + bit b1) b.tasks
    then b.tasks - (o + bit b3 + bit b2 + bit b1) + 3
    else if b1
    then 3
    else if b2
    then 2
    else bit b3

rank-pass :
    (b : Batch) (o : ℕ) (b1 b2 b3 f : Bool)
    → o + bit b3 + bit b2 + bit b1 ≤ b.tasks
    → f ≡ not (o + bit b3 + bit b2 + bit b1 == b.tasks)
    → rank b (o + bit b3) f b1 b2 ≤ rank b o b1 b2 b3 - 1
unfolding rank
rank-pass b o b1 b2 b3 f le e = ground arith

rank-pos :
    (b : Batch) (o : ℕ) (b1 b2 b3 : Bool)
    → o < b.tasks
    → o + bit b3 + bit b2 + bit b1 ≤ b.tasks
    → 0 < rank b o b1 b2 b3
unfolding rank
rank-pos b o b1 b2 b3 lt le = ground arith

-- What the state is like when the batch is done.
abbrev pub Drained : Batch → Manager → Type 0
Drained b g =
    (g.front ≡ place b b.tasks)
    × (g.out_back ≡ place b b.tasks)
    × (g.in_back ≡ place b b.tasks)
    × ((k : ℕ) → k < b.tasks → Acked b g.acks k)

module _ (fuel : ℕ) (v : View) (later : List View) (m : Manager) {g : Manager} where
  pipeline-stops : pass fuel v m ≡ ok g → g.front ≡ g.out_back → pipeline fuel (v ∷ later) m ≡ ok g
  unfolding pipeline
  pipeline-stops runs e = rw runs (ground (arith, e))

  pipeline-goes_on :
      pass fuel v m ≡ ok g
      → g.front ≢ g.out_back
      → pipeline fuel (v ∷ later) m ≡ pipeline fuel later g
  unfolding pipeline
  pipeline-goes_on runs ne = rw runs (ground (arith, ne))

Drained-all :
    (b : Batch) (g : Manager) (o : ℕ) {e0 e1 e2 e3 : PipeEntry}
    → Flight b g o e0 e1 e2 e3
    → g.front ≡ place b b.tasks
    → o ≡ b.tasks
    → Drained b g
Drained-all b g o f front all = (
  front,
  f.out ∙ ap (place b) all,
  f.fetch ∙ ap (place b) (omega (arith, f.le)),
  λ k lt. f.acked k (omega arith),
)

module _ (fuel : ℕ) (b : Batch) (is : IsBatch b) where
  -- The rounds that are left suffice.
  pipeline-Drained :
      (rounds : ℕ) (m : Manager) (o : ℕ) (e0 e1 e2 e3 : PipeEntry)
      → Flight b m o e0 e1 e2 e3
      → e0.active ≡ false
      → 0 < rounds
      → rank b o e1.active e2.active e3.active ≤ rounds
      → (g : Manager) × (pipeline fuel (replicate rounds b.view) m ≡ ok g) × Drained b g
  pipeline-Drained zero m o e0 e1 e2 e3 f off pos enough = absurd (omega arith)
  pipeline-Drained (suc rounds) m o e0 e1 e2 e3 f off pos enough =
      let (g, f0, w2, runs, f', front, active, kept) =
        pass-Flight fuel b m o e0 e1 e2 e3 is f off in
      let o' = o + bit e3.active in
      let views = replicate rounds b.view in
      elim (ℕ_discrete o' b.tasks) [
        | yes all ↦ (
          g,
          pipeline-stops fuel b.view views m runs (front ∙ sym (f'.out ∙ ap (place b) all)),
          Drained-all b g o' f' front all,
        )
        | no more ↦
            let lt : o' < b.tasks = omega (arith, f'.le) in
            let le =
              rank-pass b o e1.active e2.active e3.active f0.active (omega (arith, f.le)) active in
            let le' : rank b o' f0.active e1.active w2.active ≤ rounds =
              rw kept (omega (arith, le)) in
            let left : 0 < rank b o' f0.active e1.active w2.active =
              rank-pos b o' f0.active e1.active w2.active lt (omega (arith, f'.le)) in
            let apart : g.front ≢ g.out_back = λ q. more (
              place-injective b o' b.tasks is.start_in (omega (arith, is.few)) is.few
                (sym f'.out ∙ sym q ∙ front)) in
            let (h, ends, drained) =
              pipeline-Drained rounds g o' (idle e3) f0 e1 w2 f' refl (omega arith) le' in
            (h, pipeline-goes_on fuel b.view views m runs apart ∙ ends, drained)
      ]

-- Between two calls of the pipeline: no entry is active, and the two positions are the same.
pub record IsIdle (b : Batch) (m : Manager) (e0 e1 e2 e3 : PipeEntry) : Type 0 where
  pub at0 : At m 0 e0
  pub at1 : At m 1 e1
  pub at2 : At m 2 e2
  pub at3 : At m 3 e3
  pub four : length m.pipe ≡ 4
  pub word : m.cycle < 2 ^ 32
  pub same : m.max_entries ≡ b.size
  pub room : length m.acks ≡ b.size
  pub out : m.out_back ≡ b.start
  pub fetch : m.in_back ≡ b.start
  pub quiet : (e0.active ≡ false) × (e1.active ≡ false) × (e2.active ≡ false) × (e3.active ≡ false)

Carries-none : (b : Batch) (e : PipeEntry) (x : ℕ) → e.active ≡ false → Carries b e x
Carries-none b e x off = λ on. absurd (cc)

Flight-idle :
    (b : Batch) (m : Manager) {e0 e1 e2 e3 : PipeEntry}
    → IsBatch b
    → IsIdle b m e0 e1 e2 e3
    → Flight b m 0 e0 e1 e2 e3
Flight-idle b m {e0} {e1} {e2} {e3} is i =
    let (q0, q1, q2, q3) = i.quiet in
    let nothing : 0 + bit e3.active + bit e2.active + bit e1.active + bit e0.active ≡ 0 =
      omega (arith, ap bit q0, ap bit q1, ap bit q2, ap bit q3) in
    let first : place b 0 ≡ b.start = ground (arith, is.start_in) in
    record {
      at0 = i.at0;
      at1 = i.at1;
      at2 = i.at2;
      at3 = i.at3;
      four = i.four;
      word = i.word;
      same = i.same;
      room = i.room;
      out = i.out ∙ sym first;
      fetch = i.fetch ∙ sym first ∙ ap (place b) (sym nothing);
      le = omega (arith, nothing);
      carry3 = Carries-none b e3 _ q3;
      carry2 = Carries-none b e2 _ q2;
      carry1 = Carries-none b e1 _ q1;
      carry0 = Carries-none b e0 _ q0;
      done3 = λ on. absurd (cc);
      acked = λ k lt. absurd (omega (arith, lt));
    }

rank-start : (b : Batch) → rank b 0 false false false ≤ b.tasks + 3
unfolding rank
rank-start b = ground arith

-- On an idle task manager whose in_back is the first slot of a batch of tasks that add, seen alike in
-- every round, the pipeline ends within three rounds more than there are tasks. Then the three
-- positions are the slot that the line names, and for every task of the batch the acknowledgement one
-- place behind the slot that held it has its result.
pub pipeline-drains :
    (fuel rounds : ℕ) (b : Batch) (m : Manager) (e0 e1 e2 e3 : PipeEntry)
    → IsBatch b
    → IsIdle b m e0 e1 e2 e3
    → b.tasks + 3 ≤ rounds
    → (g : Manager) × (pipeline fuel (replicate rounds b.view) m ≡ ok g) × Drained b g
pipeline-drains fuel rounds b m e0 e1 e2 e3 is i enough =
    let (q0, q1, q2, q3) = i.quiet in
    let start = rank-start b in
    let le : rank b 0 e1.active e2.active e3.active ≤ rounds =
      rw (q1, q2, q3) (omega (arith, start, enough)) in
    pipeline-Drained fuel b is rounds m 0 e0 e1 e2 e3 (Flight-idle b m is i) q0
      (omega (arith, enough)) le
