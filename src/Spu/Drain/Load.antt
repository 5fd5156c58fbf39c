-- ===== src/Spu/Drain/Load.antt =====
-- stage1 in the middle of a batch.
use native.Mathlib.Decide.{ℕ_discrete}
use speutils_debs.Base.{
  ℕ, ◌+◌, ◌≤◌, ◌<◌, ◌≡◌, ◌≢◌, sym, ap, ◌∙◌, false, not, arith, ◌==◌, get_elem?, set, ok,
  get_elem?-set_self, get_elem?-set_ne, length-set,
}
use speutils_debs.Spu.State.{PipeEntry, Manager, increment}
use speutils_debs.Spu.Stages.{context, stage1}
use speutils_debs.Spu.Retire.{fetched, stage1-none, stage1-fetched}
use speutils_debs.Spu.Drain.Flight.{
  bit, Batch, place, IsBatch, Flight, increment-place, place-injective,
}

abbrev pub Loaded :
    Batch → Manager → ℕ → PipeEntry → PipeEntry → PipeEntry → Manager → PipeEntry → Type 0
Loaded b m o e1 e2 e3 one f0 =
    (stage1 b.view m ≡ ok one)
    × Flight b one o f0 e1 e2 e3
    × (one.front ≡ place b b.tasks)
    × (f0.active ≡ not (o + bit e3.active + bit e2.active + bit e1.active == b.tasks))

module _ (b : Batch) (m : Manager) (o : ℕ) (e0 e1 e2 e3 : PipeEntry) (is : IsBatch b)
    (f : Flight b m o e0 e1 e2 e3) (off : e0.active ≡ false) where
  abbrev next_task : ℕ
  next_task = o + bit e3.active + bit e2.active + bit e1.active

  fetch_at : m.in_back ≡ place b next_task
  fetch_at = f.fetch ∙ ap (place b) (omega (arith, ap bit off))

  stage1-empty :
      next_task ≡ b.tasks → (one : Manager) × (f0 : PipeEntry) × Loaded b m o e1 e2 e3 one f0
  unfolding context
  stage1-empty e = (
    record m { front = b.view.line.count },
    e0,
    (
      stage1-none b.view m is.raised (fetch_at ∙ ap (place b) e ∙ sym is.front),
      record {
        at0 = f.at0;
        at1 = f.at1;
        at2 = f.at2;
        at3 = f.at3;
        four = f.four;
        word = f.word;
        same = f.same;
        room = f.room;
        out = f.out;
        fetch = f.fetch;
        le = f.le;
        carry3 = f.carry3;
        carry2 = f.carry2;
        carry1 = f.carry1;
        carry0 = f.carry0;
        done3 = f.done3;
        acked = f.acked;
      },
      is.front,
      ground (arith, off, e),
    ),
  )

  stage1-more :
      next_task ≢ b.tasks → (one : Manager) × (f0 : PipeEntry) × Loaded b m o e1 e2 e3 one f0
  unfolding context
  stage1-more ne =
      let le : next_task ≤ b.tasks = omega (arith, f.le) in
      let more : next_task < b.tasks = omega arith in
      let apart : m.in_back ≢ b.view.line.count = λ q. ne (
        place-injective b next_task b.tasks is.start_in (omega (arith, is.few)) is.few
          (sym fetch_at ∙ q ∙ is.front)) in
      let f0 = fetched m e0 (b.task next_task) in
      let c0 = context m 0 in
      let step : increment m.in_back m.max_entries ≡ place b (next_task + 1) =
        ap (λ k. increment k m.max_entries) fetch_at
        ∙ ap (increment (place b next_task)) f.same
        ∙ increment-place b next_task is.start_in (omega (arith, is.few)) in
      (
        record m {
          front = b.view.line.count;
          pipe = set m.pipe c0 f0;
          in_back = increment m.in_back m.max_entries;
        },
        f0,
        (
          stage1-fetched b.view m is.raised e0 (b.task next_task) f.at0
              (ap (get_elem? b.view.tasks) fetch_at ∙ is.holds next_task more) apart,
          record {
            at0 = get_elem?-set_self m.pipe c0 f0 (omega (arith, f.four));
            at1 = get_elem?-set_ne m.pipe c0 (context m 1) f0 (omega arith) ∙ f.at1;
            at2 = get_elem?-set_ne m.pipe c0 (context m 2) f0 (omega arith) ∙ f.at2;
            at3 = get_elem?-set_ne m.pipe c0 (context m 3) f0 (omega arith) ∙ f.at3;
            four = length-set m.pipe c0 f0 ∙ f.four;
            word = f.word;
            same = f.same;
            room = f.room;
            out = f.out;
            fetch = step;
            le = omega arith;
            carry3 = f.carry3;
            carry2 = f.carry2;
            carry1 = f.carry1;
            carry0 = λ on. (step, ap b.task (omega arith), omega arith);
            done3 = f.done3;
            acked = f.acked;
          },
          is.front,
          ground (arith, ne),
        ),
      )

  pub stage1-Loaded : (one : Manager) × (f0 : PipeEntry) × Loaded b m o e1 e2 e3 one f0
  stage1-Loaded = elim (ℕ_discrete next_task b.tasks) [
    | yes e ↦ stage1-empty e
    | no ne ↦ stage1-more ne
  ]
