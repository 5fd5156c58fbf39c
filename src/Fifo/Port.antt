-- ===== src/Fifo/Port.antt =====
-- The state of src/spefifo.c. A port is what the arrays of struct host_fifo_s hold at one index, with
-- the memory of that index's struct fifo_s.
use speutils_debs.Base.{
  ℕ, ◌+◌, Bool, Option, some, List, if◌then◌else◌, ltb, length, get_elem?, set, u32, Outcome, ok,
  fault, deref, ◌>>=◌,
}
use speutils_debs.Ring.{RingContext, get_front}

-- struct ack_s
pub record Ack : Type 0 where
  pub task_id : ℕ
  pub retval : ℕ
  pub callback : ℕ

-- struct atomic_s: the line that the host and the SPE share
pub record Atomic : Type 0 where
  pub count : ℕ
  pub state : ℕ

-- A task slot: TASK_SIZE bytes as 32-bit words.
abbrev pub Slot : Type 0
Slot = List ℕ

pub record Port : Type 0 where
  pub ring : RingContext
  pub tasks : List Slot
  pub acks : List Ack
  pub atomic : Atomic
  pub max_entries : ℕ
  pub active : ℕ
  pub id : ℕ
  pub entry_p : Option ℕ
  pub entry_count : ℕ
  pub is_kicked : Bool

-- struct host_fifo_s with the variable current_spe. `ports` has the indices below `spes`: the others
-- hold null pointers, and a use of one is a fault.
pub record Host : Type 0 where
  pub spes : ℕ
  pub scheme : ℕ
  pub ports : List Port
  pub current_spe : ℕ

unfoldable pub port : Host → ℕ → Outcome Port
port host spe = deref (get_elem? host.ports spe)

unfoldable pub set_port : Host → ℕ → Port → Host
set_port host spe p = record host { ports = set host.ports spe p }

-- hostfifo.entry_p[spe][index] = word. The pointer is the number of its slot; a write behind the
-- slot, or before a slot was opened, is a fault.
unfoldable pub put : ℕ → ℕ → Port → Outcome Port
put index word p = do
  e ← deref p.entry_p
  slot ← deref (get_elem? p.tasks e)
  if ltb index (length slot)
      then ok (record p { tasks = set p.tasks e (set slot index (u32 word)) })
      else fault

-- The assignments by which fifoBegin and fifoRegisterProgram open the slot at the front.
unfoldable pub open_slot : Port → Port
open_slot p = record p {
  is_kicked = Bool.false;
  entry_count = 0;
  entry_p = some (get_front p.ring);
}

-- A write at the next index, and hostfifo.entry_count[spe]++.
unfoldable pub put_next : ℕ → Port → Outcome Port
put_next word p = do
  q ← put p.entry_count word p
  ok (record q { entry_count = u32 (q.entry_count + 1) })
