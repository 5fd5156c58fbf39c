-- ===== src/System/Start.antt =====
-- The first state of a queue and its SPE, and the turns of the SPE as a function.
use speutils_debs.Base.{
  ℕ, ◌^◌, ◌<◌, ◌≡◌, ◌≢◌, refl, sym, ap, ◌∙◌, inl, true, false, Option, List, some, arith, get_elem?,
  get_elem?-IsSome, length, if◌then◌else◌, Outcome, ok, ◌>>=◌,
}
use mathlib.Core.Path.{subst}
use speutils_debs.Messages
use speutils_debs.LinkedList.Memory.{Heap}
use speutils_debs.Ring.{RingContext}
use speutils_debs.Fifo.Port.{Ack}
use speutils_debs.Spu.State.{
  PipeEntry, Program, View, start, allocate_pipe_entry, allocate_from, allocate_pipe_entries,
}
use speutils_debs.Spu.Stages.{context, stage1, later_stages}
use speutils_debs.System.{System, shared}
use speutils_debs.System.Place.{place, place-lt}
use speutils_debs.System.Invariant.{Counts, Tasks, Entry, SpuSide, IsSystem}

-- The state in which the host has initialised the queue and the SPE enters its loop, with the number of
-- slots that it has got from the host. The memory of the slots is as memalign has left it: the SPE
-- fetches the last slot first, which the host has not written, and here that happens to hold a task
-- that adds. Nothing sets the task_id of the local acknowledgements, and here they happen not to be
-- clear.
pub record IsStart (size : ℕ) (s : System) : Type 0 where
  pub some_slot : 0 < size
  pub word : size < 2 ^ 32
  pub ring : s.port.ring ≡ record { front = 0; back = 0; size = size }
  pub lowered : s.port.atomic.state ≡ 0
  pub kicked : s.port.is_kicked ≡ true
  pub room : length s.port.acks ≡ size
  pub clear : (i : ℕ) (a : Ack) → get_elem? s.port.acks i ≡ some a → a.task_id ≡ Messages.ack_clear
  pub tasks : Tasks size 0 0 s.port.tasks
  pub held : ℕ → PipeEntry
  pub heap : Heap
  pub program : ℕ → Option Program
  pub entries : s.port.max_entries ≡ size
  pub manager : s.manager ≡ start s.port.max_entries held heap program s.port.acks
  pub answers : (i : ℕ) → (held i).ack.task_id ≢ Messages.ack_clear
  pub early : s.fetched ≡ false

-- The SPE's next turn.
unfoldable pub turn_of : ℕ → View → System → Outcome System
turn_of fuel v s =
    if s.fetched
    then (do
      m ← later_stages fuel v (shared s)
      ok (record s { port = record (s.port) { acks = m.acks }; manager = m; fetched = false }))
    else (do m ← stage1 v (shared s); ok (record s { manager = m; fetched = true }))

abbrev pub no_counts : Counts
no_counts = record { collected = 0; acked = 0; fetched = 0; submitted = 0 }

Entry-idle :
    (size n i : ℕ) (held : PipeEntry)
    → i < 4
    → held.ack.task_id ≢ Messages.ack_clear
    → Entry size n (allocate_pipe_entry held i)
unfolding allocate_pipe_entry
Entry-idle size n i held lt ne = record {
  tag = lt;
  answers = ne;
  entry = λ on. absurd (cc);
  adding = λ on. absurd (cc);
}

start-SpuSide :
    (size : ℕ) (held : ℕ → PipeEntry) (heap : Heap) (program : ℕ → Option Program) (acks : List Ack)
    → ((i : ℕ) → (held i).ack.task_id ≢ Messages.ack_clear)
    → SpuSide size no_counts
        (start size held heap program acks)
        (allocate_pipe_entry (held 0) 0)
        (allocate_pipe_entry (held 1) 1)
        (allocate_pipe_entry (held 2) 2)
        (allocate_pipe_entry (held 3) 3)
unfolding start allocate_from allocate_pipe_entries allocate_pipe_entry context place
start-SpuSide size held heap program acks ne = record {
  at0 = refl;
  at1 = refl;
  at2 = refl;
  at3 = refl;
  four = refl;
  word = omega arith;
  same = refl;
  fetch = refl;
  out = refl;
  idle_front = λ z. refl;
  flight = refl;
  entry3 = Entry-idle size 0 3 (held 3) (omega arith) (ne 3);
  entry2 = Entry-idle size 0 2 (held 2) (omega arith) (ne 2);
  entry1 = Entry-idle size 0 1 (held 1) (omega arith) (ne 1);
  entry0 = Entry-idle size 0 0 (held 0) (omega arith) (ne 0);
}

pub start-IsSystem : (size : ℕ) (s : System) → IsStart size s → IsSystem size no_counts s
unfolding place allocate_pipe_entry
start-IsSystem size s st = record {
  ordered = record {
    ca = omega arith;
    af = omega arith;
    fs = omega arith;
    room = omega (arith, st.some_slot);
    word = st.word;
  };
  host = record {
    size_is = ap (λ (r : RingContext). r.size) st.ring;
    back = ap (λ (r : RingContext). r.back) st.ring ∙ first;
    front = ap (λ (r : RingContext). r.front) st.ring ∙ first;
    kicked = st.kicked;
    line = inl (refl, st.lowered);
  };
  tasks = st.tasks;
  acks = record {
    room = st.room;
    set_acks = λ n far le. absurd (omega (arith, far, le));
    clear_acks = λ n far le.
        let below = place-lt size st.some_slot n in
        let (a, at) = get_elem?-IsSome s.port.acks (place size n) (omega (arith, below, st.room)) in
        (a, at, st.clear (place size n) a at);
  };
  e0 = allocate_pipe_entry (st.held 0) 0;
  e1 = allocate_pipe_entry (st.held 1) 1;
  e2 = allocate_pipe_entry (st.held 2) 2;
  e3 = allocate_pipe_entry (st.held 3) 3;
  spu =
      subst
        (λ m.
          SpuSide size no_counts m (allocate_pipe_entry (st.held 0) 0)
            (allocate_pipe_entry (st.held 1) 1) (allocate_pipe_entry (st.held 2) 2)
            (allocate_pipe_entry (st.held 3) 3))
        (sym (st.manager ∙ ap (λ n. start n st.held st.heap st.program s.port.acks) st.entries))
        (start-SpuSide size st.held st.heap st.program s.port.acks st.answers);
  turn = λ early. refl;
}
  where
    first : 0 ≡ place size 1
    first = ground (arith, st.some_slot)
