-- ===== src/Spu/Transfers.antt =====
-- spu/src/spu_taskmanager.c: the DMA calls of the stages on tasks that add, and where they lie.
use speutils_debs.Base.{
  ℕ, ◌+◌, ◌*◌, ◌<◌, ◌≡◌, Option, none, some, List, [], ◌∷◌, ◌++◌, if◌then◌else◌, get_elem?,
}
use speutils_debs.Messages
use speutils_debs.Dma.{Call, get, put, transfer, atomic_get, dma_get, dma_put, dma_wait_tag}
use speutils_debs.Spu.State.{stages, PipeEntry, Manager, View, in_tasks_remaining}
use speutils_debs.Spu.Stages.{check_tasks, context}

-- The addresses: of the host's task and acknowledgement memory and shared line, and, in the local
-- store, of the copy of the line and of the buffers of the entry with a number.
pub record Layout : Type 0 where
  pub task_fifo : ℕ
  pub ack_fifo : ℕ
  pub atomic : ℕ
  pub line : ℕ
  pub task_at : ℕ → ℕ
  pub ack_at : ℕ → ℕ

-- sizeof(struct ack_s)
abbrev pub ack_size : ℕ
ack_size = 16

-- dmaGet(pipe[context].task, …) of stage1
unfoldable pub fetch_calls : Layout → Manager → Option PipeEntry → List Call
fetch_calls l m none = []
fetch_calls l m (some e) =
    dma_get (l.task_at e.id) (l.task_fifo + m.in_back * Messages.task_size) Messages.task_size e.id

unfoldable pub stage1_calls : Layout → View → Manager → List Call
stage1_calls l v m =
    let now = check_tasks v m in
    atomic_get l.line l.atomic
    ++ (if in_tasks_remaining now then fetch_calls l now (get_elem? m.pipe (context m 0)) else [])

-- dmaWaitTag of stage2
unfoldable pub stage2_calls : Option PipeEntry → List Call
stage2_calls none = []
stage2_calls (some e) = if e.active then dma_wait_tag e.id else []

-- dmaPut(pipe[context].ack, …) of stage4
unfoldable pub stage4_calls : Layout → Option PipeEntry → List Call
stage4_calls l none = []
stage4_calls l (some e) =
    if e.active then dma_put (l.ack_at e.id) (l.ack_fifo + e.entry * ack_size) ack_size e.id else []

unfoldable pub later_calls : Layout → Manager → List Call
later_calls l m =
    stage2_calls (get_elem? m.pipe (context m 1)) ++ stage4_calls l (get_elem? m.pipe (context m 3))

-- A call reads exactly the slot `read` of the task memory into the task buffer of an entry, or writes
-- the acknowledgement buffer of an entry to exactly the place `write` of the acknowledgement memory.
-- The tag is the number of the entry.
abbrev pub IsAt : Layout → (read write : ℕ) → Call → Type 0
IsAt l read write (transfer get o ls ea n tag) =
    (ea ≡ l.task_fifo + read * Messages.task_size)
    × (n ≡ Messages.task_size)
    × (ls ≡ l.task_at tag)
    × (tag < stages)
IsAt l read write (transfer put o ls ea n tag) =
    (ea ≡ l.ack_fifo + write * ack_size) × (n ≡ ack_size) × (ls ≡ l.ack_at tag) × (tag < stages)
IsAt l read write c = Unit

abbrev pub AllAt : Layout → (read write : ℕ) → List Call → Type 0
AllAt l read write [] = Unit
AllAt l read write (c ∷ cs) = IsAt l read write c × AllAt l read write cs
