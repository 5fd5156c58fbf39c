-- ===== src/Spu/Retire.antt =====
-- The four stages on tasks that add: what each one does to the entry that it meets.
use speutils_debs.Base.{
  ℕ, ◌^◌, ◌<◌, ◌≡◌, ◌≢◌, sym, ap, ◌∙◌, true, false, some, arith, ltb, ◌==◌, if◌then◌else◌,
  get_elem?, length, set, ok, ◌>>=◌, set_self, Bool-cases, inl, inr,
}
use speutils_debs.Messages
use speutils_debs.Fifo.Port.{Slot}
use speutils_debs.Spu.State.{PipeEntry, Manager, View, increment, in_tasks_remaining}
use speutils_debs.Spu.Stages.{
  check_tasks, context, entry_at, set_entry, stage1, stage2, stage3, stage4,
}
use speutils_debs.Spu.Series.{sum_of, add_task-sum}

-- The entry that the stage with number `k` meets.
abbrev pub At : Manager → ℕ → PipeEntry → Type 0
At m k e = get_elem? m.pipe (context m k) ≡ some e

-- A task that adds, with the result for a given start of `res`.
pub record IsAdd (res : ℕ) (task : Slot) (result : ℕ) : Type 0 where
  pub command : get_elem? task 0 ≡ some Messages.add
  pub adds : ℕ
  pub a : ℕ
  pub b : ℕ
  pub third : get_elem? task 2 ≡ some adds
  pub fourth : get_elem? task 3 ≡ some a
  pub fifth : get_elem? task 4 ≡ some b
  pub total : result ≡ sum_of res adds a b

abbrev pub worked : PipeEntry → ℕ → PipeEntry
worked e result = record e { ack = if e.active then record (e.ack) { retval = result } else e.ack }

abbrev pub idle : PipeEntry → PipeEntry
idle e = record e { active = false }

pub stage2-add :
    (m : Manager) (e : PipeEntry)
    → At m 1 e
    → (e.active ≡ true → get_elem? e.task 0 ≡ some Messages.add)
    → stage2 m ≡ ok m
unfolding stage2 entry_at
stage2-add m e at adds = elim (Bool-cases e.active) [
  | inl on ↦ rw (at, ◌>>=◌) (rw (on, adds on))
  | inr off ↦ rw (at, off)
]

pub stage3-add :
    (fuel : ℕ) (v : View) (m : Manager) (e : PipeEntry) (result : ℕ)
    → v.res < 2 ^ 32
    → At m 2 e
    → (e.active ≡ true → IsAdd v.res e.task result)
    → stage3 fuel v m ≡ ok (set_entry m 2 (worked e result))
unfolding stage3 entry_at set_entry
stage3-add fuel v m e result small at adds = elim (Bool-cases e.active) [
  | inl on ↦
      let t = adds on in
      rw (at, ◌>>=◌)
        (simp (
          on,
          t.command,
          add_task-sum v.res e.task t.adds t.a t.b small t.third t.fourth t.fifth,
          t.total,
        ))
  | inr off ↦
      stage3-off at off
      ∙ ap (λ l. ok (record m { pipe = l }))
          (sym (
            ap (set m.pipe (context m 2)) (worked-self e off) ∙ set_self m.pipe (context m 2) e at))
]
  where
    stage3-off : At m 2 e → e.active ≡ false → stage3 fuel v m ≡ ok m
    stage3-off at off = rw (at, ◌>>=◌) (simp off)

    worked-self : (e : PipeEntry) → e.active ≡ false → worked e result ≡ e
    worked-self e off =
        λ i. record e { ack = if off i then record (e.ack) { retval = result } else e.ack }

abbrev pub retired : Manager → PipeEntry → Manager
retired m e = record m {
  pipe = set m.pipe (context m 3) (idle e);
  out_back = if e.active then increment m.out_back m.max_entries else m.out_back;
  acks = if e.active then set m.acks e.entry e.ack else m.acks;
}

pub stage4-retired :
    (m : Manager) (e : PipeEntry)
    → At m 3 e
    → (e.active ≡ true → e.entry < length m.acks)
    → stage4 m ≡ ok (retired m e)
unfolding stage4 entry_at set_entry
stage4-retired m e at room = elim (Bool-cases e.active) [
  | inl on ↦
      let inside : ltb e.entry (length m.acks) ≡ true = let r = room on in ground arith in
      rw (at, ◌>>=◌) (rw (on, inside))
  | inr off ↦
      rw (at, ◌>>=◌)
        (rw off (
          ap (λ l. ok (record m { pipe = l }))
            (sym (
              ap (set m.pipe (context m 3)) (idle-self e off)
              ∙ set_self m.pipe (context m 3) e at))))
]
  where
    idle-self : (e : PipeEntry) → e.active ≡ false → idle e ≡ e
    idle-self e off = λ i. record e { active = sym off i }

-- What stage1 makes of the entry, with the slot at in_back.
abbrev pub fetched : Manager → PipeEntry → Slot → PipeEntry
fetched m e task = record e {
  task = task;
  active = true;
  entry = increment m.in_back m.max_entries;
}

module _ (v : View) (m : Manager) (raised : v.line.state ≢ 0) where
  pub stage1-none : m.in_back ≡ v.line.count → stage1 v m ≡ ok (record m { front = v.line.count })
  unfolding stage1 check_tasks in_tasks_remaining
  stage1-none e = ground (arith, raised)

  pub stage1-fetched :
      (e : PipeEntry) (task : Slot)
      → At m 0 e
      → get_elem? v.tasks m.in_back ≡ some task
      → m.in_back ≢ v.line.count
      → stage1 v m
        ≡ ok (record m {
          front = v.line.count;
          pipe = set m.pipe (context m 0) (fetched m e task);
          in_back = increment m.in_back m.max_entries;
        })
  unfolding stage1 entry_at set_entry check_tasks in_tasks_remaining context
  stage1-fetched e task at holds more =
      let up : (v.line.state == 0) ≡ false = ground (arith, raised) in
      let some_left : (m.in_back == v.line.count) ≡ false = ground (arith, more) in
      rw (up, some_left) (rw at (rw holds))
