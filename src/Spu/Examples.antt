-- ===== src/Spu/Examples.antt =====
-- The task manager on a queue of four slots, of which two hold tasks that add.
use speutils_debs.Base.{
  out_of_fuel, ◌>>=◌, ℕ, zero, suc, ◌+◌, ◌<◌, ◌≡◌, refl, true, none, some, [], ◌∷◌, arith, ◌==◌,
  get_elem?, replicate, if◌then◌else◌, ok, fault,
}
use speutils_debs.Messages
use speutils_debs.Fifo.Port.{Ack, Slot}
use speutils_debs.Spu.State.{
  PipeEntry, Manager, View, start, allocate_pipe_entry, allocate_from, allocate_pipe_entries,
}
use speutils_debs.Spu.Stages.{context, stage2, pipeline}
use speutils_debs.Spu.Series.{sum_of}
use speutils_debs.Spu.Retire.{At}
use speutils_debs.Spu.Drain.Flight.{Batch, IsBatch, place}
use speutils_debs.Spu.Drain.Finish.{Drained, IsIdle, pipeline-drains}
use speutils_debs.Spu.Programs.{stage2-commands, start-drains}
use speutils_debs.Spu.Main.{start_control, main_loop, pipelines, main_loop-pipelines}

abbrev clear : Ack
clear = record { task_id = 0xc1ee7000; retval = 0; callback = 0 }

-- The slot with number `k` of the batch adds `k + 1` times.
abbrev adding : ℕ → Slot
adding k = Messages.add ∷ 0 ∷ (k + 1) ∷ 1 ∷ 2 ∷ []

abbrev view : View
view = record {
  line = record { count = 1; state = 1 };
  tasks = adding 1 ∷ [] ∷ [] ∷ adding 0 ∷ [];
  res = 10;
  execute = λ ls task ack. ack;
}

-- The slots 3 and 0.
abbrev batch : Batch
batch = record {
  size = 4;
  start = 3;
  tasks = 2;
  view = view;
  task = adding;
  result = λ k. sum_of 10 (k + 1) 1 2;
}

batch-holds : (k : ℕ) → k < 2 → get_elem? view.tasks (place batch k) ≡ some (adding k)
batch-holds zero lt = refl
batch-holds (suc zero) lt = refl
batch-holds (suc (suc k)) lt = absurd (omega arith)

batch-IsBatch : IsBatch batch
batch-IsBatch = record {
  few = omega arith;
  start_in = omega arith;
  raised = omega arith;
  front = refl;
  small = omega arith;
  holds = batch-holds;
  adds = λ k lt. record {
    command = refl;
    adds = k + 1;
    a = 1;
    b = 2;
    third = refl;
    fourth = refl;
    fifth = refl;
    total = refl;
  };
}

-- What the memory held.
abbrev held : ℕ → PipeEntry
held i = record { task = []; entry = i; id = i; stage = 0; ack = clear; active = true }

abbrev begin : Manager
begin = start 4 held (λ p. none) (λ p. none) (replicate 4 clear)

begin-IsIdle :
    IsIdle batch begin
      (allocate_pipe_entry (held 0) 0)
      (allocate_pipe_entry (held 1) 1)
      (allocate_pipe_entry (held 2) 2)
      (allocate_pipe_entry (held 3) 3)
unfolding start allocate_from allocate_pipe_entries allocate_pipe_entry context
begin-IsIdle = record {
  at0 = refl;
  at1 = refl;
  at2 = refl;
  at3 = refl;
  four = refl;
  word = omega arith;
  same = refl;
  room = refl;
  out = refl;
  fetch = refl;
  quiet = (refl, refl, refl, refl);
}

pipeline-drains_example :
    (g : Manager) × (pipeline 0 (replicate 5 view) begin ≡ ok g) × Drained batch g
pipeline-drains_example =
    pipeline-drains 0 5 batch begin (allocate_pipe_entry (held 0) 0)
      (allocate_pipe_entry (held 1) 1) (allocate_pipe_entry (held 2) 2)
      (allocate_pipe_entry (held 3) 3) batch-IsBatch begin-IsIdle (omega arith)

start-drains_example :
    (g : Manager) × (pipeline 0 (replicate 5 view) begin ≡ ok g) × Drained batch g
start-drains_example =
    start-drains 0 5 batch held (λ p. none) (λ p. none) (replicate 4 clear) batch-IsBatch refl refl
      (omega arith)

-- The first entry holds the task NOOP and is to be fetched a program for.
abbrev noop_entry : PipeEntry
noop_entry = record (held 1) { task = Messages.noop ∷ 0 ∷ [] }

abbrev with_noop : Manager
with_noop = record begin { pipe = replicate 4 noop_entry; programs = none }

with_noop-At : At with_noop 1 noop_entry
unfolding start context
with_noop-At = refl

stage2-commands_example :
    stage2 with_noop ≡ (if Messages.noop == Messages.add then ok with_noop else fault)
stage2-commands_example =
    stage2-commands with_noop noop_entry Messages.noop refl with_noop-At refl refl

main_loop-pipelines_example :
    main_loop 0 (replicate 5 view ∷ [] ∷ []) (start_control begin)
    ≡ (pipelines 0 (replicate 5 view ∷ [] ∷ []) begin >>= λ n. out_of_fuel)
main_loop-pipelines_example = main_loop-pipelines 0 (replicate 5 view ∷ [] ∷ []) begin
