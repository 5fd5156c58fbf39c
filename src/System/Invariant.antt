-- ===== src/System/Invariant.antt =====
-- What holds of a queue and its SPE between two turns.
use speutils_debs.Base.{
  ℕ, suc, ◌+◌, ◌-◌, ◌*◌, ◌^◌, ◌≤◌, ◌<◌, ◌≡◌, ◌≢◌, ◌⊎◌, true, false, List, some, get_elem?, length,
}
use speutils_debs.Messages
use speutils_debs.Fifo.Port.{Ack, Slot, Port}
use speutils_debs.Spu.State.{PipeEntry, Manager}
use speutils_debs.Spu.Retire.{At}
use speutils_debs.Spu.Drain.Flight.{bit}
use speutils_debs.System.{System}
use speutils_debs.System.Place.{place}

-- The words of a task that adds.
pub record IsAdding (task : Slot) : Type 0 where
  pub command : get_elem? task 0 ≡ some Messages.add
  pub adds : ℕ
  pub third : get_elem? task 2 ≡ some adds
  pub a : ℕ
  pub fourth : get_elem? task 3 ≡ some a
  pub b : ℕ
  pub fifth : get_elem? task 4 ≡ some b

-- The numbers of the tasks that are taken back, acknowledged, fetched and submitted.
pub record Counts : Type 0 where
  pub collected : ℕ
  pub acked : ℕ
  pub fetched : ℕ
  pub submitted : ℕ

pub record Ordered (size : ℕ) (c : Counts) : Type 0 where
  pub ca : c.collected ≤ c.acked
  pub af : c.acked ≤ c.fetched
  pub fs : c.fetched ≤ c.submitted
  pub room : c.submitted < c.collected + size
  pub word : size < 2 ^ 32

-- The ring and the line that the host writes.
pub record HostSide (size : ℕ) (c : Counts) (p : Port) : Type 0 where
  pub size_is : p.ring.size ≡ size
  pub back : p.ring.back ≡ place size (suc c.collected)
  pub front : p.ring.front ≡ place size (suc c.submitted)
  pub kicked : p.is_kicked ≡ true
  pub line :
      ((c.submitted ≡ 0) × (p.atomic.state ≡ 0))
      ⊎ ((0 < c.submitted) × (p.atomic.state ≡ 1) × (p.atomic.count ≡ place size c.submitted))

-- Slots of 32 words. The SPE fetches the number `k` from the slot of this number, which the host has
-- written for `k` from 1 on; what the slot of the number 0 holds, the host has not written.
pub record Tasks (size fetched submitted : ℕ) (tasks : List Slot) : Type 0 where
  pub holds :
      (i : ℕ) → i < size → (slot : Slot) × (get_elem? tasks i ≡ some slot) × (length slot ≡ 32)
  pub adding :
      (k : ℕ)
      → fetched ≤ k
      → k ≤ submitted
      → (slot : Slot) × (get_elem? tasks (place size k) ≡ some slot) × IsAdding slot

-- An acknowledgement is set exactly for the tasks that are acknowledged and not taken back.
pub record Acks (size collected acked : ℕ) (acks : List Ack) : Type 0 where
  pub room : length acks ≡ size
  pub set_acks :
      (n : ℕ)
      → collected < n
      → n ≤ acked
      → (a : Ack) × (get_elem? acks (place size n) ≡ some a) × (a.task_id ≢ Messages.ack_clear)
  pub clear_acks :
      (n : ℕ)
      → acked < n
      → n ≤ collected + size
      → (a : Ack) × (get_elem? acks (place size n) ≡ some a) × (a.task_id ≡ Messages.ack_clear)

-- An entry of the pipeline; an active one carries a task that adds, with the number `n`.
pub record Entry (size n : ℕ) (e : PipeEntry) : Type 0 where
  pub tag : e.id < 4
  pub answers : e.ack.task_id ≢ Messages.ack_clear
  pub entry : e.active ≡ true → e.entry ≡ place size n
  pub adding : e.active ≡ true → IsAdding e.task

-- The SPE: the entries carry the tasks behind the acknowledged ones, the last stage the oldest.
pub record SpuSide (size : ℕ) (c : Counts) (m : Manager) (e0 e1 e2 e3 : PipeEntry) : Type 0 where
  pub at0 : At m 0 e0
  pub at1 : At m 1 e1
  pub at2 : At m 2 e2
  pub at3 : At m 3 e3
  pub four : length m.pipe ≡ 4
  pub word : m.cycle < 2 ^ 32
  pub same : m.max_entries ≡ size
  pub fetch : m.in_back ≡ place size c.fetched
  pub out : m.out_back ≡ place size c.acked
  pub idle_front : c.submitted ≡ 0 → m.front ≡ place size 0
  pub flight : c.fetched ≡ c.acked + bit e3.active + bit e2.active + bit e1.active + bit e0.active
  pub entry3 : Entry size (c.acked + bit e3.active) e3
  pub entry2 : Entry size (c.acked + bit e3.active + bit e2.active) e2
  pub entry1 : Entry size (c.acked + bit e3.active + bit e2.active + bit e1.active) e1
  pub entry0 : Entry size c.fetched e0

pub record IsSystem (size : ℕ) (c : Counts) (s : System) : Type 0 where
  pub ordered : Ordered size c
  pub host : HostSide size c s.port
  pub tasks : Tasks size c.fetched c.submitted s.port.tasks
  pub acks : Acks size c.collected c.acked s.port.acks
  pub e0 : PipeEntry
  pub e1 : PipeEntry
  pub e2 : PipeEntry
  pub e3 : PipeEntry
  pub spu : SpuSide size c s.manager e0 e1 e2 e3
  pub turn : s.fetched ≡ false → e0.active ≡ false

-- The turns of the SPE that are still needed before every submitted task is acknowledged, at most.
abbrev pub load : {size : ℕ} {c : Counts} {s : System} → IsSystem size c s → ℕ
load {c = c} i =
    5 * (c.submitted - c.fetched)
    + 4 * bit i.e0.active
    + 3 * bit i.e1.active
    + 2 * bit i.e2.active
    + bit i.e3.active
