-- ===== src/Spu/State.antt =====
-- spu/src/spu_taskmanager.h, spu_taskpipe.h, spu_taskpipe.c and shared/pic.h: the SPE's state.
use speutils_debs.Base.{
  ℕ, zero, suc, ◌+◌, ◌-◌, Bool, false, Option, none, List, [], ◌∷◌, leb, ◌^◌, u32, ◌==◌,
  if◌then◌else◌, not,
}
use speutils_debs.LinkedList.{LinkedList}
use speutils_debs.LinkedList.Memory.{Heap}
use speutils_debs.Fifo.Port.{Ack, Atomic, Slot}

abbrev pub stages : ℕ
stages = 4

-- struct pipe_entry_s. `task` and `ack` are the local store buffers that the pointers lead to.
pub record PipeEntry : Type 0 where
  pub task : Slot
  pub entry : ℕ
  pub id : ℕ
  pub stage : ℕ
  pub ack : Ack
  pub active : Bool

-- struct program_s; `ls` 0 is NULL.
pub record Program : Type 0 where
  pub ls : ℕ
  pub id : ℕ
  pub ea : ℕ
  pub size : ℕ

-- The static variables of spu_taskmanager.c: tstate (in_back, out_back, front), cycle, pipe, the
-- max_entries of the fetched struct fifo_s and the list of programs with its memory; and `acks`, the
-- acknowledgement memory on the host's side.
pub record Manager : Type 0 where
  pub in_back : ℕ
  pub out_back : ℕ
  pub front : ℕ
  pub cycle : ℕ
  pub pipe : List PipeEntry
  pub max_entries : ℕ
  pub programs : Option LinkedList
  pub heap : Heap
  pub program : ℕ → Option Program
  pub acks : List Ack

-- What one round of the pipeline meets: the shared line and the task memory of the host, the value
-- that the variable `res` of stage3 happens to start with, and what a program in the local store
-- does with the task and the acknowledgement.
pub record View : Type 0 where
  pub line : Atomic
  pub tasks : List Slot
  pub res : ℕ
  pub execute : ℕ → Slot → Ack → Ack

-- increment
unfoldable pub increment : ℕ → ℕ → ℕ
increment value boundary = if leb boundary (value + 1) then 0 else value + 1

-- in_tasks_remaining
unfoldable pub in_tasks_remaining : Manager → Bool
in_tasks_remaining m = not (m.in_back == m.front)

-- allocate_pipe_entries: the entry at an index; the fields that it does not set, and the contents of
-- the two buffers, are what the memory held.
unfoldable pub allocate_pipe_entry : PipeEntry → ℕ → PipeEntry
allocate_pipe_entry held i = record held { stage = u32 (2 ^ 32 - 1); id = i; active = false }

unfoldable pub allocate_from : ℕ → ℕ → (ℕ → PipeEntry) → List PipeEntry
allocate_from zero i held = []
allocate_from (suc n) i held = allocate_pipe_entry (held i) i ∷ allocate_from n (i + 1) held

unfoldable pub allocate_pipe_entries : ℕ → (ℕ → PipeEntry) → List PipeEntry
unfolding allocate_from
allocate_pipe_entries entries held = allocate_from entries 0 held

-- The state in which main enters its loop. `max_entries` is that of the struct fifo_s of the host, which
-- dmaGetnWait has copied to the local store. The statement `programs == listInit();` compares, so that
-- `programs` stays the null pointer.
unfoldable pub start :
    (max_entries : ℕ) → (ℕ → PipeEntry) → Heap → (ℕ → Option Program) → List Ack → Manager
start max_entries held heap program acks = record {
  in_back = max_entries - 1;
  out_back = max_entries - 1;
  front = max_entries - 1;
  cycle = 0;
  pipe = allocate_pipe_entries stages held;
  max_entries = max_entries;
  programs = none;
  heap = heap;
  program = program;
  acks = acks;
}
