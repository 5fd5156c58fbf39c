-- ===== src/Thread/Stop.antt =====
-- stop_spu_thread of src/spethread.c, on what a thread that has ended still holds of the system.
use speutils_debs.Base.{
  ℕ, ◌≡◌, ◌≢◌, refl, inl, inr, Bool, true, false, List, [], ◌∷◌, arith, Bool-cases, if◌then◌else◌,
  ◌==◌, u32, Outcome, ok, fault, ◌>>=◌,
}
use speutils_debs.Thread.{thread_loop, Routine, SpuThread, Spe, start_spu_thread}

-- What spu->events points to: `unset` is whatever the memory held.
pub data Block : Type 0 where
  unset : Block
  allocated : Block
  freed : Block

pub record Held : Type 0 where
  pub joined : Bool
  pub registered : Bool
  pub handler : Bool
  pub context : Bool
  pub events : Block
  pub descriptors : List ℕ

-- A thread that has ended: only spu_loop_thread sets `events`, with a descriptor of epoll_create, and
-- only for it start_spu_thread makes a pipe.
abbrev pub ended : SpuThread → (epoll read_end write_end : ℕ) → Held
ended spu epoll read_end write_end = record {
  joined = false;
  registered = true;
  handler = true;
  context = true;
  events = if spu.kind == thread_loop then allocated else unset;
  descriptors = if spu.kind == thread_loop then epoll ∷ read_end ∷ write_end ∷ [] else [];
}

unfoldable pub free_events : Block → Outcome Block
free_events unset = fault
free_events allocated = ok freed
free_events freed = fault

unfoldable pub close : ℕ → List ℕ → List ℕ
close descriptor [] = []
close descriptor (d ∷ ds) = if d == descriptor then ds else d ∷ close descriptor ds

-- stop_spu_thread; `array` is the address that the array spu->pipe stands for as an argument of close.
unfoldable pub stop_spu_thread : ℕ → Held → Outcome Held
stop_spu_thread array h = do
  events ← free_events h.events
  ok (record h {
    joined = true;
    registered = false;
    handler = false;
    context = false;
    events = events;
    descriptors = close (u32 array) h.descriptors;
  })

start_spu_thread-kind :
    (spe : Spe) (create : Routine → ℕ) (spu : SpuThread) {started : SpuThread}
    → start_spu_thread spe create spu ≡ ok started
    → started.kind ≡ spu.kind
unfolding start_spu_thread
start_spu_thread-kind spe create spu e = ground arith

pub close-others :
    (fd a b c : ℕ) → a ≢ fd → b ≢ fd → c ≢ fd → close fd (a ∷ b ∷ c ∷ []) ≡ a ∷ b ∷ c ∷ []
unfolding close
close-others fd a b c na nb nc = ground arith

-- For a thread that start_spu_thread has started and that has ended, and whose pipe lies at an address
-- that is the number of none of its descriptors: stop_spu_thread releases everything but the three
-- descriptors of a looping thread, which stay open, and frees a pointer without a value for any other
-- thread.
pub stop_spu_thread-kinds :
    (spe : Spe) (create : Routine → ℕ) (spu started : SpuThread)
    (array epoll read_end write_end : ℕ)
    → start_spu_thread spe create spu ≡ ok started
    → epoll ≢ u32 array
    → read_end ≢ u32 array
    → write_end ≢ u32 array
    → stop_spu_thread array (ended started epoll read_end write_end) ≡ (
        if spu.kind == thread_loop
        then ok (record {
          joined = true;
          registered = false;
          handler = false;
          context = false;
          events = freed;
          descriptors = epoll ∷ read_end ∷ write_end ∷ [];
        })
        else fault)
unfolding stop_spu_thread free_events
stop_spu_thread-kinds spe create spu started array epoll read_end write_end e ne nr nw =
    let same = start_spu_thread-kind spe create spu e in
    elim (Bool-cases (spu.kind == thread_loop)) [
      | inl loops ↦
          rw (same, loops, close-others (u32 array) epoll read_end write_end ne nr nw) refl
      | inr other ↦ rw (same, other) refl
    ]
