-- ===== src/System/Examples.antt =====
-- A queue of four slots and its SPE, and the states after a task and after the SPE's first turn.
use speutils_debs.Base.{
  ℕ, zero, suc, ◌+◌, ◌<◌, ◌≡◌, refl, inl, inr, true, false, none, some, [], ◌∷◌, arith, get_elem?,
  replicate, ok,
}
use speutils_debs.Messages
use speutils_debs.Ring.{has_remaining, has_free, inc_front, get_front}
use speutils_debs.Fifo.Port.{Ack, Slot, Port, open_slot, put, put_next}
use speutils_debs.Fifo.Collect.Release.{IsSettled}
use speutils_debs.Fifo.Submit.{
  internal_handle, begin_port, add_port, skip_unkicked, send_front, kick_port,
}
use speutils_debs.Fifo.Submit.Task.{add_all}
use speutils_debs.Fifo.Submit.Kick.{submit_port}
use speutils_debs.Spu.State.{
  PipeEntry, Manager, View, start, allocate_from, allocate_pipe_entries, allocate_pipe_entry,
  in_tasks_remaining, increment,
}
use speutils_debs.Spu.Transfers.{Layout, AllAt, stage2_calls}
use speutils_debs.System.{System, Work, Works, Reach, here, go, submits, works, fetches, finishes}
use speutils_debs.System.Invariant.{Counts, IsSystem}
use speutils_debs.System.Place.{place, place-lt}
use speutils_debs.System.Start.{IsStart, no_counts, turn_of}
use speutils_debs.System.Reachable.{Reach-IsSystem, Reach-turn, Reach-IsSettled}
use speutils_debs.System.Drains.{Reach-drains}
use speutils_debs.Spu.Stages.{
  check_tasks, context, entry_at, set_entry, stage1, stage2, stage3, stage4, later_stages,
}
use speutils_debs.System.Abstract.{
  events, is_active, IsHistory, tally, submitted, fetched, none_acknowledged, Reach-IsHistory,
}
use speutils_debs.System.Transfers.{turn_calls, Reach-AllAt}
mod Answers

abbrev pub clear : Ack
clear = record { task_id = Messages.ack_clear; retval = 0; callback = 0 }

abbrev pub adding : Slot
adding = Messages.add ∷ internal_handle ∷ 3 ∷ 1 ∷ 2 ∷ replicate 27 0

abbrev pub port0 : Port
port0 = record {
  ring = record { front = 0; back = 0; size = 4 };
  tasks = replicate 4 adding;
  acks = replicate 4 clear;
  atomic = record { count = 0; state = 0 };
  max_entries = 4;
  active = 1;
  id = 0;
  entry_p = none;
  entry_count = 0;
  is_kicked = true;
}

-- What the local store held.
abbrev pub held : ℕ → PipeEntry
held i = record {
  task = [];
  entry = 0;
  id = 9;
  stage = 0;
  ack = record { task_id = 7; retval = 0; callback = 0 };
  active = true;
}

abbrev pub first : System
first = record {
  port = port0;
  manager = start 4 held (λ p. none) (λ p. none) (replicate 4 clear);
  fetched = false;
}

slot_holds : (i : ℕ) → i < 4 → get_elem? (replicate 4 adding) i ≡ some adding
slot_holds zero lt = refl
slot_holds (suc zero) lt = refl
slot_holds (suc (suc zero)) lt = refl
slot_holds (suc (suc (suc zero))) lt = refl
slot_holds (suc (suc (suc (suc i)))) lt = absurd (omega arith)

clear_at :
    (i : ℕ) (a : Ack) → get_elem? (replicate 4 clear) i ≡ some a → a.task_id ≡ Messages.ack_clear
clear_at zero a e = cc
clear_at (suc zero) a e = cc
clear_at (suc (suc zero)) a e = cc
clear_at (suc (suc (suc zero))) a e = cc
clear_at (suc (suc (suc (suc i)))) a e = absurd (cc)

pub first-IsStart : IsStart 4 first
first-IsStart = record {
  some_slot = omega arith;
  word = omega arith;
  ring = refl;
  lowered = refl;
  kicked = refl;
  room = refl;
  clear = clear_at;
  tasks = record {
    holds = λ i lt. (adding, slot_holds i lt, refl);
    adding = λ k from to. (
      adding,
      slot_holds (place 4 k) (place-lt 4 (omega arith) k),
      record { command = refl; adds = 3; third = refl; a = 1; fourth = refl; b = 2; fifth = refl },
    );
  };
  held = held;
  heap = λ p. none;
  program = λ p. none;
  entries = refl;
  manager = refl;
  answers = λ i e. absurd (omega (arith, e));
  early = refl;
}

-- The host has submitted a task: the first conditional store failed.
abbrev pub port1 : Port
port1 = record port0 {
  ring = record { front = 1; back = 0; size = 4 };
  tasks = (Messages.add ∷ internal_handle ∷ 5 ∷ 1 ∷ 2 ∷ replicate 27 0) ∷ replicate 3 adding;
  atomic = record { count = 0; state = 1 };
  entry_p = some 0;
  entry_count = 5;
}

abbrev second : System
second = record first { port = port1 }

first-second : Reach first second
unfolding has_free submit_port add_all begin_port add_port skip_unkicked send_front kick_port
    open_slot put put_next inc_front get_front
first-second = go here (submits (false ∷ true ∷ []) 5 port1 (inr (inl refl)) refl refl refl)

abbrev look : View
look = record { line = port1.atomic; tasks = port1.tasks; res = 10; execute = λ ls task ack. ack }

abbrev layout : Layout
layout = record {
  task_fifo = 0x1000;
  ack_fifo = 0x2000;
  atomic = 0x3000;
  line = 0x80;
  task_at = λ id. 0x100 + id;
  ack_at = λ id. 0x200 + id;
}

Reach-IsSystem_example : (c : Counts) × IsSystem 4 c second
Reach-IsSystem_example = Reach-IsSystem 4 first second first-IsStart first-second

Reach-turn_example : (u : System) × (turn_of 0 look second ≡ ok u) × Work second u
Reach-turn_example =
    Reach-turn 4 0 look first second first-IsStart first-second refl refl (omega arith)

Reach-drains_example : (u : System) × Works second u × (has_remaining u.port.ring ≡ false)
Reach-drains_example = Reach-drains 4 first second first-IsStart first-second

abbrev idle_entry : ℕ → PipeEntry
idle_entry i = record (held i) { stage = 0xffffffff; id = i; active = false }

-- The entry that stage1 has filled.
abbrev fetched_entry : PipeEntry
fetched_entry = record (idle_entry 0) { task = adding; entry = 0; active = true }

abbrev later_manager : ℕ → Manager
later_manager cycle = record {
  in_back = 0;
  out_back = 3;
  front = 0;
  cycle = cycle;
  pipe = fetched_entry ∷ idle_entry 1 ∷ idle_entry 2 ∷ idle_entry 3 ∷ [];
  max_entries = 4;
  programs = none;
  heap = λ p. none;
  program = λ p. none;
  acks = replicate 4 clear;
}

abbrev pub third : System
third = record { port = port1; manager = later_manager 0; fetched = true }

abbrev fourth : System
fourth = record { port = port1; manager = later_manager 0xffffffff; fetched = false }

pub second-third : Work second third
unfolding start allocate_from allocate_pipe_entries allocate_pipe_entry check_tasks
    in_tasks_remaining context entry_at set_entry increment stage1
second-third = fetches look (later_manager 0) refl refl refl refl refl

third-fourth : Work third fourth
unfolding context entry_at stage2 stage3 stage4 later_stages
third-fourth = finishes 0 look (later_manager 0xffffffff) (omega arith) refl refl refl

first-fourth : Reach first fourth
first-fourth = go (go first-second (works second-third)) (works third-fourth)

fourth-events : events first-fourth ≡ none_acknowledged ∷ fetched ∷ submitted ∷ []
unfolding events is_active context first-fourth first-second second-third third-fourth
fourth-events = refl

second-events : events first-second ≡ submitted ∷ []
unfolding events first-second
second-events = refl

Reach-AllAt_example :
    AllAt layout 3 0 (turn_calls layout look second) × (place 4 0 < 4) × (place 4 1 < 4)
unfolding events first-second place
Reach-AllAt_example = Reach-AllAt layout 4 look first second first-IsStart first-second

Reach-IsHistory_example :
    IsHistory 4 (events first-fourth) × IsSystem 4 (tally (events first-fourth)) fourth
Reach-IsHistory_example = Reach-IsHistory 4 first fourth first-IsStart first-fourth
