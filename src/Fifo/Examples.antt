-- ===== src/Fifo/Examples.antt =====
-- spefifo.c: queues of four slots.
use mathlib.Core.Path.{subst}
use speutils_debs.Base.{
  ℕ, zero, suc, ◌^◌, ◌+◌, ◌<◌, ◌≤◌, ◌≡◌, ◌≢◌, refl, ◌↔◌, Bool, true, false, none, some, List, [],
  ◌∷◌, ◌++◌, arith, ltb, if◌then◌else◌, get_elem?, set, length, replicate, Outcome, ok, inl, inr,
}
use speutils_debs.Messages
use speutils_debs.Ring.{RingContext, has_free, has_remaining, get_front, inc_front}
use speutils_debs.Ring.Count.{IsValid, used}
use speutils_debs.Ring.Pending.{pending, window, wrap}
use speutils_debs.Fifo.Port.{Ack, Atomic, Slot, Port, Host, set_port}
use speutils_debs.Fifo.Select.{advance, select_fifo}
use speutils_debs.Fifo.Select.Turn.{IsFree, select_fifo-turn}
use speutils_debs.Fifo.Submit.{send_front, register_port, fifo_addition, fifo_noop, internal_handle}
use speutils_debs.Fifo.Submit.Task.{HasSlot}
use speutils_debs.Fifo.Submit.Kick.{
  SomeStored, Submitted, submit_port, submit_port-Submitted, send_front-atomic,
}
use speutils_debs.Fifo.Submit.Overrun.{
  Registered, register_port-Registered, register_port-overrun, submit_port-overrun,
}
use speutils_debs.Fifo.Queue.{SameSlots, submit_port-append}
use speutils_debs.Fifo.Collect.{collect_port}
use speutils_debs.Fifo.Collect.Release.{IsSettled, Collected, collect_port-release}
use speutils_debs.Fifo.Drained.{
  fifo_is_empty, fifo_wait, NoneUsed, SomeEmpty, fifo_is_empty-NoneUsed, fifo_wait-SomeEmpty,
}
use speutils_debs.Fifo.Tasks.Turns.{IsOpen, IsHost, Given, fifo_addition-Given, fifo_noop-Given}
mod Hosts

abbrev pub clear : Ack
clear = record { task_id = 0xc1ee7000; retval = 0; callback = 0 }

abbrev pub answered : Ack
answered = record { task_id = 7; retval = 5; callback = 0 }

abbrev pub slot : Slot
slot = replicate 32 0

abbrev pub tasks : List Slot
tasks = replicate 4 slot

-- No slot is occupied.
abbrev pub empty : Port
empty = record {
  ring = record { front = 0; back = 0; size = 4 };
  tasks = tasks;
  acks = clear ∷ clear ∷ clear ∷ clear ∷ [];
  atomic = record { count = 0; state = 0 };
  max_entries = 4;
  active = 1;
  id = 0;
  entry_p = none;
  entry_count = 0;
  is_kicked = true;
}

-- The slots 3 and 0 are occupied, and the older one is answered.
abbrev pub busy : Port
busy = record empty {
  ring = record { front = 1; back = 3; size = 4 };
  acks = clear ∷ clear ∷ clear ∷ answered ∷ [];
}

-- The slots 3, 0 and 1 are occupied.
abbrev pub full : Port
full = record busy { ring = record { front = 2; back = 3; size = 4 } }

clear_lem : (a : Ack) → some clear ≡ some a → a.task_id ≡ Messages.ack_clear
clear_lem a h = ground (arith, h)

empty-clear : (i : ℕ) (a : Ack) → get_elem? empty.acks i ≡ some a → a.task_id ≡ Messages.ack_clear
empty-clear zero a h = clear_lem a h
empty-clear (suc zero) a h = clear_lem a h
empty-clear (suc (suc zero)) a h = clear_lem a h
empty-clear (suc (suc (suc zero))) a h = clear_lem a h
empty-clear (suc (suc (suc (suc i)))) a h = absurd (cc)

busy-clear :
    (i : ℕ) (a : Ack) → get_elem? busy.acks i ≡ some a → i ≢ 3 → a.task_id ≡ Messages.ack_clear
busy-clear zero a h ne = clear_lem a h
busy-clear (suc zero) a h ne = clear_lem a h
busy-clear (suc (suc zero)) a h ne = clear_lem a h
busy-clear (suc (suc (suc zero))) a h ne = absurd (ne refl)
busy-clear (suc (suc (suc (suc i)))) a h ne = absurd (cc)

pub empty-IsSettled : IsSettled empty
empty-IsSettled = record {
  valid = record { front_in = omega arith; back_in = omega arith; word = omega arith };
  room = refl;
  clear = λ i a h out. empty-clear i a h;
}

pub busy-IsSettled : IsSettled busy
unfolding window
busy-IsSettled = record {
  valid = record { front_in = omega arith; back_in = omega arith; word = omega arith };
  room = refl;
  clear = λ i a h out. busy-clear i a h out.0;
}

pub full-IsSettled : IsSettled full
unfolding window
full-IsSettled = record {
  valid = record { front_in = omega arith; back_in = omega arith; word = omega arith };
  room = refl;
  clear = λ i a h out. busy-clear i a h out.0;
}

pub busy-free : has_free busy.ring ≡ true
unfolding has_free
busy-free = refl

pub slots_four : (i : ℕ) → i < 4 → (s : Slot) × HasSlot empty i s
slots_four zero lt = (slot, (refl, refl))
slots_four (suc zero) lt = (slot, (refl, refl))
slots_four (suc (suc zero)) lt = (slot, (refl, refl))
slots_four (suc (suc (suc zero))) lt = (slot, (refl, refl))
slots_four (suc (suc (suc (suc i)))) lt = absurd (omega arith)

full-not_free : has_free full.ring ≡ false
unfolding has_free
full-not_free = refl

collect_port-release_example : Collected busy (collect_port 3 busy)
collect_port-release_example = collect_port-release 3 busy busy-IsSettled (omega arith)

busy-HasSlot : HasSlot busy (get_front busy.ring) slot
unfolding get_front
busy-HasSlot = (refl, refl)

full-HasSlot : HasSlot full (get_front full.ring) slot
unfolding get_front
full-HasSlot = (refl, refl)

submit_port-append_example :
    (q : Port) × (submit_port (true ∷ []) 7 8 (9 ∷ []) busy ≡ ok q)
    × Submitted 7 8 (9 ∷ []) busy slot q
    × IsSettled q
    × (pending q.ring ≡ pending busy.ring ++ get_front busy.ring ∷ [])
    × SameSlots busy q (pending busy.ring)
submit_port-append_example =
    submit_port-append (true ∷ []) 7 8 (9 ∷ []) busy slot (inl refl) refl busy-HasSlot
      busy-IsSettled busy-free

submit_port-Submitted_example :
    (q : Port) × (submit_port (true ∷ []) 7 8 (9 ∷ []) busy ≡ ok q)
    × Submitted 7 8 (9 ∷ []) busy slot q
submit_port-Submitted_example =
    submit_port-Submitted (true ∷ []) 7 8 (9 ∷ []) busy slot (inl refl) refl busy-HasSlot

register_port-Registered_example :
    (q : Port) × (register_port (true ∷ []) (2 ^ 32 + 5) 64 full ≡ ok q)
    × Registered (2 ^ 32 + 5) 64 full slot q
register_port-Registered_example =
    register_port-Registered (true ∷ []) (2 ^ 32 + 5) 64 full slot (inl refl) full-HasSlot

register_port-overrun_example :
    (q : Port) × (register_port (true ∷ []) 128 64 full ≡ ok q)
    × (used full.ring + 1 ≡ 4)
    × (has_remaining q.ring ≡ false)
register_port-overrun_example =
    register_port-overrun (true ∷ []) 128 64 full slot (inl refl) full-HasSlot full-IsSettled.valid
      full-not_free

-- The queue whose task in slot 1 was begun and not kicked.
abbrev begun : Port
begun = record busy { is_kicked = false }

begun-last : has_free (inc_front begun.ring) ≡ false
unfolding has_free inc_front
begun-last = refl

begun-HasSlot : HasSlot begun (get_front (inc_front begun.ring)) slot
unfolding inc_front get_front
begun-HasSlot = (refl, refl)

submit_port-overrun_example :
    (q : Port) × (submit_port (true ∷ []) 7 8 [] begun ≡ ok q)
    × (used begun.ring + 2 ≡ 4)
    × (has_remaining q.ring ≡ false)
submit_port-overrun_example =
    submit_port-overrun (true ∷ []) 7 8 [] begun slot (inl refl) refl begun-HasSlot
      busy-IsSettled.valid busy-free begun-last
