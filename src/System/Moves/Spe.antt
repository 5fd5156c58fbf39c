-- ===== src/System/Moves/Spe.antt =====
-- The turns of the SPE: stage1, and the other stages.
use mathlib.Core.Path.{subst}
use native.Mathlib.Decide.{ℕ_discrete}
use speutils_debs.Base.{
  ℕ, suc, ◌+◌, ◌<◌, ◌≡◌, ◌≢◌, refl, sym, ap, ◌∙◌, inl, inr, ◌⊎◌, true, false, not, some, arith,
  get_elem?, set, ok, ◌==◌, get_elem?-set_self, get_elem?-set_ne, length-set,
}
use speutils_debs.Fifo.Port.{Atomic, Slot, Port}
use speutils_debs.Spu.State.{PipeEntry, Manager, View, increment, in_tasks_remaining}
use speutils_debs.Spu.Stages.{check_tasks, context, stage1}
use speutils_debs.Spu.Retire.{fetched, stage1-none, stage1-fetched}
use speutils_debs.Spu.Drain.Flight.{bit}
use speutils_debs.System.Place.{place, place-suc, place-ne}
use speutils_debs.System.Invariant.{IsAdding, Counts, Ordered, HostSide, Tasks, Entry, SpuSide}

stage1-lowered :
    (v : View) (m : Manager) → v.line.state ≡ 0 → m.in_back ≡ m.front → stage1 v m ≡ ok m
unfolding stage1 check_tasks in_tasks_remaining
stage1-lowered v m low same = ground (arith, low, same)

increment-place : (size n : ℕ) → 0 < size → increment (place size n) size ≡ place size (suc n)
unfolding increment
increment-place size n some_slot = sym (place-suc size some_slot n)

-- What stage1 leaves: the entry of the first stage is active if there was a task to fetch.
abbrev pub counts_fetched : Counts → PipeEntry → Counts
counts_fetched c f0 = record c { fetched = c.fetched + bit f0.active }

abbrev pub Fetched :
    ℕ → Counts → View → Manager → PipeEntry → PipeEntry → PipeEntry → Manager → PipeEntry → Type 0
Fetched size c v m e1 e2 e3 one f0 =
    (stage1 v m ≡ ok one)
    × SpuSide size (counts_fetched c f0) one f0 e1 e2 e3
    × Ordered size (counts_fetched c f0)
    × (one.acks ≡ m.acks)
    × (f0.active ≡ not (c.fetched == c.submitted))
    × (f0.active ≡ true → get_elem? v.tasks m.in_back ≡ some f0.task)

module _ (size : ℕ) (c : Counts) (p : Port) (v : View) (m : Manager) (e0 e1 e2 e3 : PipeEntry)
    (o : Ordered size c) (h : HostSide size c p) (line : v.line ≡ p.atomic)
    (s : SpuSide size c m e0 e1 e2 e3) (off : e0.active ≡ false) where
  slots : 0 < size
  slots = omega (arith, o.ca, o.af, o.fs, o.room)

  -- Nothing is fetched, and at most `front` is set.
  fetch-none :
      (front : ℕ)
      → c.fetched ≡ c.submitted
      → (c.submitted ≡ 0 → front ≡ place size 0)
      → stage1 v m ≡ ok (record m { front = front })
      → Fetched size c v m e1 e2 e3 (record m { front = front }) e0
  unfolding context
  fetch-none front all low runs =
      let zero_bit : bit e0.active ≡ 0 = ap bit off in
      let still : c.fetched + bit e0.active ≡ c.fetched = omega (arith, zero_bit) in
      (
        runs,
        record {
          at0 = s.at0;
          at1 = s.at1;
          at2 = s.at2;
          at3 = s.at3;
          four = s.four;
          word = s.word;
          same = s.same;
          fetch = s.fetch ∙ ap (place size) (sym still);
          out = s.out;
          idle_front = low;
          flight = still ∙ s.flight;
          entry3 = s.entry3;
          entry2 = s.entry2;
          entry1 = s.entry1;
          entry0 = subst (λ n. Entry size n e0) (sym still) s.entry0;
        },
        record {
          ca = o.ca;
          af = omega (arith, o.af);
          fs = omega (arith, o.fs, still);
          room = o.room;
          word = o.word;
        },
        refl,
        ground (arith, off, all),
        λ on. absurd (cc),
      )

  fetch-some :
      (task : Slot)
      → c.fetched < c.submitted
      → v.line.state ≢ 0
      → v.line.count ≡ place size c.submitted
      → get_elem? v.tasks m.in_back ≡ some task
      → IsAdding task
      → (one : Manager) × (f0 : PipeEntry) × Fetched size c v m e1 e2 e3 one f0
  unfolding context
  fetch-some task more raised count holds adding =
      let f0 = fetched m e0 task in
      let c0 = context m 0 in
      let zero_bit : bit e0.active ≡ 0 = ap bit off in
      let apart : m.in_back ≢ v.line.count = λ q.
        place-ne size slots c.fetched c.submitted more (omega (arith, o.ca, o.af, o.room))
          (sym s.fetch ∙ q ∙ count) in
      let step : increment m.in_back m.max_entries ≡ place size (c.fetched + 1) =
        ap (λ k. increment k m.max_entries) s.fetch
        ∙ ap (increment (place size c.fetched)) s.same
        ∙ increment-place size c.fetched slots
        ∙ ap (place size) (omega arith) in
      (
        record m {
          front = v.line.count;
          pipe = set m.pipe c0 f0;
          in_back = increment m.in_back m.max_entries;
        },
        f0,
        (
          stage1-fetched v m raised e0 task s.at0 holds apart,
          record {
            at0 = get_elem?-set_self m.pipe c0 f0 (omega (arith, s.four));
            at1 = get_elem?-set_ne m.pipe c0 (context m 1) f0 (omega arith) ∙ s.at1;
            at2 = get_elem?-set_ne m.pipe c0 (context m 2) f0 (omega arith) ∙ s.at2;
            at3 = get_elem?-set_ne m.pipe c0 (context m 3) f0 (omega arith) ∙ s.at3;
            four = length-set m.pipe c0 f0 ∙ s.four;
            word = s.word;
            same = s.same;
            fetch = step;
            out = s.out;
            idle_front = λ none_sent. absurd (omega (arith, more, none_sent));
            flight = omega (arith, s.flight, zero_bit);
            entry3 = s.entry3;
            entry2 = s.entry2;
            entry1 = s.entry1;
            entry0 = record {
              tag = s.entry0.tag;
              answers = s.entry0.answers;
              entry = λ on. step;
              adding = λ on. adding;
            };
          },
          record {
            ca = o.ca;
            af = omega (arith, o.af);
            fs = omega (arith, more);
            room = o.room;
            word = o.word;
          },
          refl,
          ground (arith, more),
          λ on. holds,
        ),
      )

  pub fetch-Fetched :
      Tasks size c.fetched c.submitted v.tasks
      → (one : Manager) × (f0 : PipeEntry) × Fetched size c v m e1 e2 e3 one f0
  fetch-Fetched ts = by_line h.line
    where
      at_once : (v.line.state ≡ p.atomic.state) × (v.line.count ≡ p.atomic.count)
      at_once = (ap (λ (a : Atomic). a.state) line, ap (λ (a : Atomic). a.count) line)

      by_line :
          ((c.submitted ≡ 0) × (p.atomic.state ≡ 0))
            ⊎ ((0 < c.submitted) × (p.atomic.state ≡ 1) × (p.atomic.count ≡ place size c.submitted))
          → (one : Manager) × (f0 : PipeEntry) × Fetched size c v m e1 e2 e3 one f0
      by_line (inl (none_sent, low)) =
          let all : c.fetched ≡ c.submitted = omega (arith, none_sent, o.fs) in
          let front = s.idle_front none_sent in
          let same : m.in_back ≡ m.front =
            s.fetch ∙ ap (place size) (omega (arith, all, none_sent)) ∙ sym front in
          (m, e0, fetch-none m.front all (λ z. front) (stage1-lowered v m (at_once.0 ∙ low) same))
      by_line (inr (some_sent, up, count)) =
          let raised : v.line.state ≢ 0 = omega (arith, at_once.0, up) in
          elim (ℕ_discrete c.fetched c.submitted) [
            | yes all ↦ (
              record m { front = v.line.count },
              e0,
              fetch-none v.line.count all (λ z. absurd (omega (arith, z, some_sent)))
                  (stage1-none v m raised
                    (s.fetch ∙ ap (place size) all ∙ sym (at_once.1 ∙ count))),
            )
            | no more ↦
                let (task, there, adding) = ts.adding c.fetched (omega arith) o.fs in
                let holds : get_elem? v.tasks m.in_back ≡ some task =
                  ap (get_elem? v.tasks) s.fetch ∙ there in
                fetch-some task (omega (arith, more, o.fs)) raised (at_once.1 ∙ count) holds adding
          ]
