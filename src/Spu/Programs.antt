-- ===== src/Spu/Programs.antt =====
-- The list of programs: what its missing initialisation in main means for the commands, and the state
-- in which main starts the pipeline.
use speutils_debs.Base.{
  ℕ, ◌+◌, ◌-◌, ◌≤◌, ◌≡◌, refl, sym, true, Option, some, none, List, arith, ◌==◌, if◌then◌else◌,
  get_elem?, length, replicate, ok, fault, ◌>>=◌,
}
use speutils_debs.Messages
use speutils_debs.LinkedList.Memory.{Heap}
use speutils_debs.Fifo.Port.{Ack}
use speutils_debs.Spu.State.{
  PipeEntry, Program, Manager, start, allocate_pipe_entry, allocate_pipe_entries, allocate_from,
}
use speutils_debs.Spu.Stages.{
  context, entry_at, store_field, register_program, first_program, fetch_program, stage2, pipeline,
}
use speutils_debs.Spu.Retire.{At}
use speutils_debs.Spu.Drain.Flight.{Batch, IsBatch}
use speutils_debs.Spu.Drain.Finish.{Drained, IsIdle, pipeline-drains}

register_program-fault : register_program ≡ fault
unfolding register_program store_field
register_program-fault = refl

fetch_program-fault :
    (command : ℕ) (m : Manager) → m.programs ≡ none → fetch_program command m ≡ fault
unfolding fetch_program first_program
fetch_program-fault command m e = rw e

-- While the variable `programs` is the null pointer, an active entry passes stage2 when its command is
-- ADD, and is a fault with every other command, NOOP and REGISTER_PROGRAM included.
pub stage2-commands :
    (m : Manager) (e : PipeEntry) (command : ℕ)
    → m.programs ≡ none
    → At m 1 e
    → e.active ≡ true
    → get_elem? e.task 0 ≡ some command
    → stage2 m ≡ (if command == Messages.add then ok m else fault)
unfolding stage2 entry_at
stage2-commands m e command no_list at on first =
    let unlisted = fetch_program-fault command m no_list in
    rw (at, ◌>>=◌)
      (rw (on, first) (rw (register_program-fault, unlisted) (ground (arith, unlisted))))

-- In the state in which main enters its loop the pipeline is idle at the last place of the queue.
start-IsIdle :
    (b : Batch) (held : ℕ → PipeEntry) (heap : Heap) (program : ℕ → Option Program)
    (acks : List Ack)
    → b.start ≡ b.size - 1
    → length acks ≡ b.size
    → IsIdle b
        (start b.size held heap program acks)
        (allocate_pipe_entry (held 0) 0)
        (allocate_pipe_entry (held 1) 1)
        (allocate_pipe_entry (held 2) 2)
        (allocate_pipe_entry (held 3) 3)
unfolding start allocate_from allocate_pipe_entries allocate_pipe_entry context
start-IsIdle b held heap program acks first room = record {
  at0 = refl;
  at1 = refl;
  at2 = refl;
  at3 = refl;
  four = refl;
  word = ground arith;
  same = refl;
  room = room;
  out = sym first;
  fetch = sym first;
  quiet = (refl, refl, refl, refl);
}

-- From the state in which main enters its loop, with any contents of the buffers and of the memory,
-- and with an acknowledgement for each slot, the pipeline ends on a batch of adding tasks that begins
-- at the last slot of the queue, within three rounds more than there are tasks. Then the results of
-- the batch are acknowledged, each one place behind the slot of its task.
pub start-drains :
    (fuel rounds : ℕ) (b : Batch) (held : ℕ → PipeEntry) (heap : Heap)
    (program : ℕ → Option Program) (acks : List Ack)
    → IsBatch b
    → b.start ≡ b.size - 1
    → length acks ≡ b.size
    → b.tasks + 3 ≤ rounds
    → (g : Manager) × (pipeline fuel (replicate rounds b.view) (start b.size held heap program acks)
        ≡ ok g)
      × Drained b g
start-drains fuel rounds b held heap program acks is first room enough =
    pipeline-drains fuel rounds b (start b.size held heap program acks) _ _ _ _ is
      (start-IsIdle b held heap program acks first room) enough
