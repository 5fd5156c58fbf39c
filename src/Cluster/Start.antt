-- ===== src/Cluster/Start.antt =====
-- fifoInit and the SPEs that it starts: the first state of all queues and SPEs.
use mathlib.Core.Path.{subst}
use speutils_debs.Base.{
  ℕ, ◌/◌, ◌^◌, ◌≤◌, ◌<◌, ◌≡◌, ◌≢◌, refl, sym, ap, ◌∙◌, false, Option, none, some, [], arith,
  get_elem?, length, ok,
}
use speutils_debs.Messages
use speutils_debs.LinkedList.Memory.{Heap}
use speutils_debs.Thread.{Spe, Routine, SpuThread, spu_loop}
use speutils_debs.Fifo.Port.{Ack, Port, Host}
use speutils_debs.Ring.Pending.{Avoids}
use speutils_debs.Fifo.Init.{Blocks, fifo_init}
use speutils_debs.Fifo.Init.Ready.{IsReady, fifo_init-AllReady}
use speutils_debs.Fifo.Init.Contents.{fifo_init-tasks, AllReady-at}
use speutils_debs.Spu.State.{Manager, PipeEntry, Program, start}
use speutils_debs.System.Invariant.{Tasks}
use speutils_debs.System.Start.{IsStart}
use speutils_debs.Cluster.{Cluster, view}
use speutils_debs.Cluster.Views.{IsFirst}

-- What the local store of an SPE held.
pub record Local : Type 0 where
  pub held : ℕ → PipeEntry
  pub heap : Heap
  pub program : ℕ → Option Program

-- main of the SPE up to its loop: it gets the struct fifo_s of its queue from the host.
unfoldable pub enter_main : Option Port → Local → Manager
enter_main none local = start 0 local.held local.heap local.program []
enter_main (some p) local = start p.max_entries local.held local.heap local.program p.acks

-- All SPEs enter the loop of their main function.
unfoldable pub boot : Host → (ℕ → Local) → Cluster
boot host local = record {
  host = host;
  managers = λ i. enter_main (get_elem? host.ports i) (local i);
  fetched = λ i. false;
}

enter_main-port :
    (host : Host) (i : ℕ) {p : Port} (local : Local)
    → get_elem? host.ports i ≡ some p
    → enter_main (get_elem? host.ports i) local
      ≡ start p.max_entries local.held local.heap local.program p.acks
unfolding enter_main
enter_main-port host i local at = ap (λ q. enter_main q local) at

clear_all :
    (entries : ℕ) (p : Port)
    → IsReady entries p
    → (i : ℕ) (a : Ack) → get_elem? p.acks i ≡ some a
    → a.task_id ≡ Messages.ack_clear
clear_all entries p r i a at = r.settled.clear i a at (subst (Avoids i) (sym r.empty) tt)

module _ (entries : ℕ) (host : Host) (local : ℕ → Local)
    (answers : (i j : ℕ) → ((local i).held j).ack.task_id ≢ Messages.ack_clear)
    (some_slot : 0 < entries) (word : entries < 2 ^ 32) where
  boot-IsStart :
      (i : ℕ) (p : Port)
      → get_elem? host.ports i ≡ some p
      → IsReady entries p
      → Tasks entries 0 0 p.tasks
      → IsStart entries (view (boot host local) p i)
  unfolding boot
  boot-IsStart i p at r tasks = record {
    some_slot = some_slot;
    word = word;
    ring = r.begins;
    lowered = r.lowered;
    kicked = r.kicked;
    room = r.settled.room ∙ r.size;
    clear = clear_all entries p r;
    tasks = tasks;
    held = (local i).held;
    heap = (local i).heap;
    program = (local i).program;
    entries = r.entries_too;
    manager = enter_main-port host i (local i) at;
    answers = answers i;
    early = refl;
  }

module _ (spe : Spe) (create : Routine → ℕ) (spu : SpuThread) (fifo_size : ℕ)
    (starts : create spu_loop ≡ 0) (some_slot : 0 < fifo_size / Messages.task_size)
    (int : fifo_size < 2 ^ 31) where
  abbrev entries_of : ℕ
  entries_of = fifo_size / Messages.task_size

  -- With a size of at least one slot, 1 to MAX_SPES SPEs, threads that start, memory for as many slots of
  -- 32 words and acknowledgements as TASK_SIZE fits into the size, rounded down, where the last slot
  -- happens to hold a task that adds, and local stores whose acknowledgements happen not to be clear:
  -- fifoInit returns. When each SPE has got max_entries from the host and enters the loop of its main
  -- function, the host with all its queues and SPEs is in a first state (IsFirst).
  pub fifo_init-IsFirst :
      (blocks : ℕ → Blocks) (local : ℕ → Local) (spes scheme : ℕ)
      → ((i : ℕ) → length (blocks i).acks ≡ entries_of)
      → ((i : ℕ) → Tasks entries_of 0 0 (blocks i).tasks)
      → ((i j : ℕ) → ((local i).held j).ack.task_id ≢ Messages.ack_clear)
      → 0 < spes
      → spes ≤ Messages.max_spes
      → (host : Host) × (fifo_init spe create blocks spu fifo_size spes scheme ≡ ok host)
        × IsFirst entries_of (boot host local)
  unfolding boot
  fifo_init-IsFirst blocks local spes scheme room holds answers some_spe few =
      let (host, runs, all_spes, len, all) =
        fifo_init-AllReady spe create spu fifo_size starts some_slot int blocks spes scheme room
          few in
      let (first, tasks) = fifo_init-tasks spe create spu blocks fifo_size spes scheme runs few in
      let word : entries_of < 2 ^ 32 = omega (arith, int) in
      (
        host,
        runs,
        record {
          all_spes = all_spes ∙ sym len;
          current_in = omega (arith, first, all_spes, some_spe);
          starts = λ i p at.
              boot-IsStart entries_of host local answers some_slot word i p at
                (AllReady-at entries_of host.ports i all at)
                (subst (Tasks entries_of 0 0) (sym (tasks i p at)) (holds i));
        },
      )
