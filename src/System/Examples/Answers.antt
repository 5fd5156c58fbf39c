-- ===== src/System/Examples/Answers.antt =====
-- A queue of four slots and its SPE: two tasks are submitted, the SPE works five rounds, and fifothread
-- takes the first acknowledgement back.
use speutils_debs.Base.{
  ℕ, ◌<◌, ◌≡◌, refl, inl, Bool, true, false, List, replicate, none, some, [], ◌∷◌, arith, u32, ok,
}
use speutils_debs.Messages
use speutils_debs.Ring.{has_free, inc_front, inc_back, get_front, get_back}
use speutils_debs.Fifo.Port.{Ack, Slot, Port, open_slot, put, put_next}
use speutils_debs.Fifo.Collect.Release.{release}
use speutils_debs.Fifo.Submit.{
  internal_handle, begin_port, add_port, skip_unkicked, send_front, kick_port,
}
use speutils_debs.Fifo.Submit.Task.{add_all}
use speutils_debs.Fifo.Submit.Kick.{submit_port}
use speutils_debs.Spu.State.{
  PipeEntry, Manager, start, allocate_from, allocate_pipe_entries, allocate_pipe_entry,
  in_tasks_remaining, increment,
}
use speutils_debs.Spu.Stages.{
  check_tasks, context, entry_at, set_entry, stage1, stage2, stage3, stage4, later_stages, add_task,
  add_loop, rounds_of,
}
use speutils_debs.Spu.Series.{sum_of}
use speutils_debs.System.{
  System, shared, Reach, here, go, submits, works, collects, fetches, finishes,
}
use speutils_debs.System.Place.{place}
use speutils_debs.System.Drains.{view_of}
use speutils_debs.System.Results.{IsAmong, values, submissions, taken, adds_of, Reach-retval}
use speutils_debs.System.Examples.{clear, adding, held, port0, first, first-IsStart}

abbrev task_of : ℕ → Slot
task_of adds = Messages.add ∷ internal_handle ∷ adds ∷ 1 ∷ 2 ∷ replicate 27 0

abbrev one_task : Port
one_task = record port0 {
  ring = record { front = 1; back = 0; size = 4 };
  tasks = task_of 5 ∷ replicate 3 adding;
  atomic = record { count = 0; state = 1 };
  entry_p = some 0;
  entry_count = 5;
}

abbrev two_tasks : Port
two_tasks = record one_task {
  ring = record { front = 2; back = 0; size = 4 };
  tasks = task_of 5 ∷ task_of 7 ∷ replicate 2 adding;
  atomic = record { count = 1; state = 1 };
  entry_p = some 1;
}

abbrev busy : System
busy = record first { port = two_tasks }

first-busy : Reach first busy
unfolding has_free submit_port add_all begin_port add_port skip_unkicked send_front kick_port
    open_slot put put_next inc_front get_front
first-busy =
    go (go here (submits (true ∷ []) 5 one_task (inl refl) refl refl refl))
      (submits (true ∷ []) 7 two_tasks (inl refl) refl refl refl)

abbrev answer : ℕ → Ack
answer retval = record { task_id = 7; retval = retval; callback = 0 }

abbrev idle_entry : ℕ → PipeEntry
idle_entry i = record (held i) { stage = 0xffffffff; id = i; active = false }

-- The entry 0 with the task that the last slot held, and the entry 3 with the first one.
abbrev old : ℕ → Bool → PipeEntry
old retval active = record (idle_entry 0) {
  task = adding;
  entry = 0;
  ack = answer retval;
  active = active;
}

abbrev new : ℕ → Bool → PipeEntry
new retval active = record (idle_entry 3) {
  task = task_of 5;
  entry = 1;
  ack = answer retval;
  active = active;
}

abbrev manager_at : (in_back out_back cycle : ℕ) → PipeEntry → PipeEntry → List Ack → Manager
manager_at in_back out_back cycle e0 e3 acks = record {
  in_back = in_back;
  out_back = out_back;
  front = 1;
  cycle = cycle;
  pipe = e0 ∷ idle_entry 1 ∷ idle_entry 2 ∷ e3 ∷ [];
  max_entries = 4;
  programs = none;
  heap = λ p. none;
  program = λ p. none;
  acks = acks;
}

abbrev after : Manager → System
after m = record { port = record two_tasks { acks = m.acks }; manager = m; fetched = false }

abbrev unanswered : List Ack
unanswered = replicate 4 clear

abbrev answered : List Ack
answered = answer 12 ∷ replicate 3 clear

abbrev n1 : Manager
n1 = manager_at 0 3 0xffffffff (old 0 true) (idle_entry 3) unanswered

abbrev n2 : Manager
n2 = manager_at 1 3 0xfffffffe (old 0 true) (new 0 true) unanswered

abbrev n3 : Manager
n3 = manager_at 1 3 0xfffffffd (old 12 true) (new 0 true) unanswered

abbrev n4 : Manager
n4 = manager_at 1 0 0xfffffffc (old 12 false) (new 25 true) answered

abbrev n5 : Manager
n5 =
    manager_at 1 1 0xfffffffb (old 12 false) (new 25 false)
      (answer 12 ∷ answer 25 ∷ replicate 2 clear)

-- A round of the SPE: stage1 leaves `m`, and the other stages `n`.
one_round :
    {s : System} (m n : Manager)
    → Reach first s
    → s.fetched ≡ false
    → stage1 (view_of s) (shared s) ≡ ok m
    → let f = record s { manager = m; fetched = true } in
      later_stages 0 (view_of f) (shared f) ≡ ok n
      → Reach first
          (record { port = record (s.port) { acks = n.acks }; manager = n; fetched = false })
one_round {s} m n r early fetch finish =
    let f = record s { manager = m; fetched = true } in
    go (go r (works (fetches (view_of s) m refl refl early fetch refl)))
      (works (finishes 0 (view_of f) n (omega arith) refl finish refl))

first-n1 : Reach first (after n1)
unfolding start allocate_from allocate_pipe_entries allocate_pipe_entry check_tasks
    in_tasks_remaining context entry_at set_entry increment stage1 stage2 stage3 stage4 later_stages
first-n1 = one_round (record n1 { cycle = 0 }) n1 first-busy refl refl refl

first-n2 : Reach first (after n2)
unfolding check_tasks in_tasks_remaining context entry_at set_entry increment stage1 stage2 stage3
    stage4 later_stages add_task add_loop rounds_of
first-n2 = one_round (record n2 { cycle = 0xffffffff }) n2 first-n1 refl refl refl

first-n3 : Reach first (after n3)
unfolding check_tasks in_tasks_remaining context entry_at set_entry increment stage1 stage2 stage3
    stage4 later_stages add_task add_loop rounds_of
first-n3 = one_round (record n2 { cycle = 0xfffffffe }) n3 first-n2 refl refl refl

first-n4 : Reach first (after n4)
unfolding check_tasks in_tasks_remaining context entry_at set_entry increment stage1 stage2 stage3
    stage4 later_stages add_task add_loop rounds_of
first-n4 = one_round (record n3 { cycle = 0xfffffffd }) n4 first-n3 refl refl refl

first-n5 : Reach first (after n5)
unfolding check_tasks in_tasks_remaining context entry_at set_entry increment stage1 stage2 stage3
    stage4 later_stages add_task add_loop rounds_of
first-n5 = one_round (record n4 { cycle = 0xfffffffc }) n5 first-n4 refl refl refl

abbrev collected : System
collected = record {
  port = record two_tasks {
    ring = record { front = 2; back = 1; size = 4 };
    acks = record (answer 12) { task_id = Messages.ack_clear } ∷ answer 25 ∷ replicate 2 clear;
  };
  manager = n5;
  fetched = false;
}

first-collected : Reach first collected
unfolding release get_back inc_back
first-collected =
    go first-n5 (works (collects (answer 12) refl (λ e. absurd (omega (arith, e))) refl))

-- The acknowledgement of the slot 1 holds 5 * 3 + 0 + 1 + 2 + 3 + 4, the result of the first task.
Reach-retval_example :
    (1 < 2)
    × (get_back collected.port.ring ≡ place 4 2)
    × ((res : ℕ) × IsAmong res (replicate 5 0) × (25 ≡ sum_of res (u32 5) 1 2))
unfolding submissions taken adds_of values first-busy one_round first-n1 first-n2 first-n3 first-n4
    first-n5 first-collected
Reach-retval_example =
    Reach-retval 4 first collected (answer 25) first-IsStart first-collected refl
      (λ e. absurd (omega (arith, e))) (omega arith)
