-- ===== src/Fifo/Init.antt =====
-- allocate_fifo and fifoInit of src/spefifo.c.
use mathlib.Core.Path.{subst}
use speutils_debs.Base.{
  ℕ, zero, suc, ◌+◌, ◌-◌, ◌/◌, ◌%◌, ◌^◌, ◌≤◌, ◌<◌, ◌≡◌, ◌≢◌, refl, sym, ap, ◌∙◌, Bool, true, false,
  Option, none, some, List, [], ◌∷◌, arith, ltb, leb, if◌then◌else◌, ◌==◌, get_elem?, set, length,
  u32, Outcome, ok, fault, deref, ◌>>=◌, ◌>>◌, length-set, get_elem?-set, get_elem?-IsSome,
  get_elem?-lt, get_elem?-set_self, get_elem?-set_ne,
}
use speutils_debs.Messages
use speutils_debs.Ring.{RingContext, init_context}
use speutils_debs.Ring.Count.{IsValid, used, init_context-IsValid}
use speutils_debs.Ring.Pending.{pending, window}
use speutils_debs.Thread.{Spe, Routine, SpuThread, start_spu_thread, thread_loop}
use speutils_debs.Fifo.Port.{Ack, Atomic, Slot, Port, Host}
use speutils_debs.Fifo.Collect.Release.{IsSettled}
pub mod Ready
pub mod Contents

-- The two blocks that memalign returns for the tasks and the acknowledgements, with their contents.
pub record Blocks : Type 0 where
  pub tasks : List Slot
  pub acks : List Ack

-- for(i = 0; i < entries;i++) ack[(i*ACK_SIZE)/sizeof(uint32_t)]=ACK_CLEAR;
unfoldable pub clear_acks : (rounds i : ℕ) → List Ack → Outcome (List Ack)
clear_acks zero i acks = ok acks
clear_acks (suc rounds) i acks = do
  ack ← deref (get_elem? acks i)
  clear_acks rounds (i + 1) (set acks i (record ack { task_id = Messages.ack_clear }))

-- What allocate_fifo sets of struct fifo_s.
pub record Allocated : Type 0 where
  pub tasks : List Slot
  pub acks : List Ack
  pub atomic : Atomic

unfoldable pub allocate_fifo : Blocks → (entries : ℕ) → Outcome Allocated
allocate_fifo blocks entries = do
  acks ← clear_acks entries 0 blocks.acks
  ok (record { tasks = blocks.tasks; acks = acks; atomic = record { count = 0; state = 0 } })

-- The round of the loop of fifoInit for one SPE. The size is not negative. A null ring is a fault: the
-- thread fifothread reads its back at once. start_spu_thread returns 0 or ends the process, so that
-- `active` stays 1. `entry_p` and `entry_count` have the zeros of static storage.
unfoldable pub init_port : Spe → (Routine → ℕ) → Blocks → SpuThread → ℕ → ℕ → Outcome Port
init_port spe create blocks spu fifo_size i = do
  let entries = fifo_size / Messages.task_size
  fifo ← allocate_fifo blocks entries
  made ← init_context true entries
  ring ← deref made
  start_spu_thread spe create (record spu { kind = thread_loop })
  ok (record {
    ring = ring;
    tasks = fifo.tasks;
    acks = fifo.acks;
    atomic = fifo.atomic;
    max_entries = entries;
    active = 1;
    id = i % 2 ^ 16;
    entry_p = none;
    entry_count = 0;
    is_kicked = true;
  })

unfoldable pub init_ports :
    Spe → (Routine → ℕ) → (ℕ → Blocks) → SpuThread → ℕ → (rounds i : ℕ) → Outcome (List Port)
init_ports spe create blocks spu fifo_size zero i = ok []
init_ports spe create blocks spu fifo_size (suc rounds) i = do
  p ← init_port spe create (blocks i) spu fifo_size i
  ps ← init_ports spe create blocks spu fifo_size rounds (i + 1)
  ok (p ∷ ps)

-- fifoInit, without the start of the thread fifothread behind its loop. The arrays of hostfifo have
-- MAX_SPES elements, which is not tested.
unfoldable pub fifo_init :
    Spe → (Routine → ℕ) → (ℕ → Blocks) → SpuThread → (fifo_size spes scheme : ℕ) → Outcome Host
fifo_init spe create blocks spu fifo_size spes scheme =
    if leb spes Messages.max_spes
    then (do
      ports ← init_ports spe create blocks spu fifo_size spes 0
      ok (record { spes = spes; scheme = scheme; ports = ports; current_spe = 0 }))
    else fault
