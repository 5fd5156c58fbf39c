-- ===== src/Fifo/Init/Ready.antt =====
-- fifoInit: the queues that it makes.
use speutils_debs.Base.{
  ℕ, zero, suc, ◌+◌, ◌/◌, ◌%◌, ◌^◌, ◌≤◌, ◌<◌, ◌≡◌, refl, ap, ◌∙◌, true, none, some, List, [], ◌∷◌,
  arith, leb, get_elem?, set, length, ok, length-set, get_elem?-set, get_elem?-IsSome, get_elem?-lt,
}
use speutils_debs.Messages
use speutils_debs.Ring.{init_context}
use speutils_debs.Ring.Pending.{pending, window}
use speutils_debs.Thread.{Spe, Routine, SpuThread, start_spu_thread, thread_loop}
use speutils_debs.Fifo.Port.{Ack, Port, Host}
use speutils_debs.Fifo.Collect.Release.{IsSettled}
use speutils_debs.Thread.{spu_loop}
use speutils_debs.Fifo.Init.{Blocks, clear_acks, allocate_fifo, init_port, init_ports, fifo_init}

-- A list whose acknowledgements from `i` on are to be cleared, and those before are clear.
clear_acks-clear :
    (rounds i : ℕ) (acks : List Ack)
    → i + rounds ≡ length acks
    → ((j : ℕ) (a : Ack) → j < i → get_elem? acks j ≡ some a → a.task_id ≡ Messages.ack_clear)
    → (new : List Ack) × (clear_acks rounds i acks ≡ ok new)
      × (length new ≡ length acks)
      × ((j : ℕ) (a : Ack) → get_elem? new j ≡ some a → a.task_id ≡ Messages.ack_clear)
unfolding clear_acks
clear_acks-clear zero i acks e before =
    (acks, refl, refl, λ j a h. before j a (omega (arith, get_elem?-lt acks j h, e)) h)
clear_acks-clear (suc rounds) i acks e before =
    let (ack, holds) = get_elem?-IsSome acks i (omega (arith, e)) in
    let next = set acks i (record ack { task_id = Messages.ack_clear }) in
    let (new, runs, len, clear) =
      clear_acks-clear rounds (i + 1) next (omega (arith, e, length-set acks i _))
        (λ j a lt h. cleared ack holds before j a lt h) in
    (new, rw holds refl ∙ runs, len ∙ length-set acks i _, clear)
  where
    cleared :
        (ack : Ack)
        → get_elem? acks i ≡ some ack
        → ((j : ℕ) (a : Ack) → j < i → get_elem? acks j ≡ some a → a.task_id ≡ Messages.ack_clear)
        → (j : ℕ) (a : Ack) → j < i + 1
        → get_elem? (set acks i (record ack { task_id = Messages.ack_clear })) j ≡ some a
        → a.task_id ≡ Messages.ack_clear
    cleared ack holds before j a lt h =
        let new =
          get_elem?-set acks j i (record ack { task_id = Messages.ack_clear })
            (get_elem?-lt acks i holds) in
        ground (arith, before j a, new, h)

-- A queue in order without occupied slots, kicked and active, about which the SPE was told nothing.
pub record IsReady (entries : ℕ) (p : Port) : Type 0 where
  pub settled : IsSettled p
  pub empty : pending p.ring ≡ []
  pub begins : p.ring ≡ record { front = 0; back = 0; size = entries }
  pub lowered : p.atomic.state ≡ 0
  pub size : p.ring.size ≡ entries
  pub entries_too : p.max_entries ≡ entries
  pub kicked : p.is_kicked ≡ true
  pub active : p.active ≡ 1

abbrev pub AllReady : ℕ → List Port → Type 0
AllReady entries [] = Unit
AllReady entries (p ∷ ps) = IsReady entries p × AllReady entries ps

module _ (spe : Spe) (create : Routine → ℕ) (spu : SpuThread) (fifo_size : ℕ)
    (starts : create spu_loop ≡ 0) (some_entry : 0 < fifo_size / Messages.task_size)
    (int : fifo_size < 2 ^ 31) where
  abbrev entries : ℕ
  entries = fifo_size / Messages.task_size

  init_context-entries :
      init_context true entries ≡ ok (some (record { front = 0; back = 0; size = entries }))
  unfolding init_context
  init_context-entries = ground arith

  start-ok :
      start_spu_thread spe create (record spu { kind = thread_loop })
      ≡ ok (record spu {
        kind = thread_loop;
        runflags = 0;
        entry = spe.default_entry;
        createflags = spe.events_enable;
        events = spe.mailbox_and_stopped;
        has_pipe = true;
        thread_id = create spu_loop;
      })
  unfolding start_spu_thread
  start-ok = ground (arith, starts)

  abbrev made_port : Blocks → List Ack → ℕ → Port
  made_port blocks acks i = record {
    ring = record { front = 0; back = 0; size = entries };
    tasks = blocks.tasks;
    acks = acks;
    atomic = record { count = 0; state = 0 };
    max_entries = entries;
    active = 1;
    id = i % 2 ^ 16;
    entry_p = none;
    entry_count = 0;
    is_kicked = true;
  }

  init_port-IsReady :
      (blocks : Blocks) (i : ℕ)
      → length blocks.acks ≡ entries
      → (p : Port) × (init_port spe create blocks spu fifo_size i ≡ ok p) × IsReady entries p
  unfolding init_port allocate_fifo
  init_port-IsReady blocks i room =
      let (new, runs, len, clear) =
        clear_acks-clear entries 0 blocks.acks (omega (arith, room))
          (λ j a lt h. absurd (omega (arith, lt))) in
      (
        made_port blocks new i,
        rw (runs, init_context-entries) (rw start-ok refl),
        record {
          settled = record {
            valid = record { front_in = some_entry; back_in = some_entry; word = omega arith };
            room = len ∙ room;
            clear = λ j a h out. clear j a h;
          };
          empty = unfold window in refl;
          begins = refl;
          lowered = refl;
          size = refl;
          entries_too = refl;
          kicked = refl;
          active = refl;
        },
      )

  init_ports-AllReady :
      (blocks : ℕ → Blocks)
      → ((i : ℕ) → length (blocks i).acks ≡ entries)
      → (rounds i : ℕ)
      → (ps : List Port) × (init_ports spe create blocks spu fifo_size rounds i ≡ ok ps)
        × (length ps ≡ rounds)
        × AllReady entries ps
  unfolding init_ports
  init_ports-AllReady blocks room zero i = ([], refl, refl, tt)
  init_ports-AllReady blocks room (suc rounds) i =
      let (p, runs, ready) = init_port-IsReady (blocks i) i (room i) in
      let (ps, run, len, all) = init_ports-AllReady blocks room rounds (i + 1) in
      (p ∷ ps, rw (runs, run) refl, ap suc len, (ready, all))

  -- With a size of at least one slot, at most MAX_SPES SPEs and threads that start, fifoInit returns:
  -- it makes as many queues as there are SPEs, each with the number of slots that fit into the size,
  -- none of them occupied, all acknowledgements clear, and kicked.
  pub fifo_init-AllReady :
      (blocks : ℕ → Blocks) (spes scheme : ℕ)
      → ((i : ℕ) → length (blocks i).acks ≡ entries)
      → spes ≤ Messages.max_spes
      → (host : Host) × (fifo_init spe create blocks spu fifo_size spes scheme ≡ ok host)
        × (host.spes ≡ spes)
        × (length host.ports ≡ spes)
        × AllReady entries host.ports
  unfolding fifo_init
  fifo_init-AllReady blocks spes scheme room few =
      let (ps, run, len, all) = init_ports-AllReady blocks room spes 0 in
      let small : leb spes Messages.max_spes ≡ true = ground (arith, few) in
      (
        record { spes = spes; scheme = scheme; ports = ps; current_spe = 0 },
        rw (small, run) refl,
        refl,
        len,
        all,
      )
