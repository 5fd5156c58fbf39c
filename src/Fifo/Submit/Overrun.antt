-- ===== src/Fifo/Submit/Overrun.antt =====
-- fifoRegisterProgram on one queue, and tasks for which a queue has no room.
use speutils_debs.Base.{
  ℕ, ◌+◌, ◌/◌, ◌^◌, ◌≤◌, ◌≡◌, refl, ap, ◌∙◌, >>=_assoc, Bool, true, false, some, List, [], ◌∷◌,
  arith, get_elem?, set, length, u32, Outcome, ok, ◌>>=◌, length-set, get_elem?-set_self,
  get_elem?-lt,
}
use speutils_debs.Messages
use speutils_debs.Ring.{inc_front, get_front, has_free, has_remaining}
use speutils_debs.Ring.Count.{IsValid, used, inc_front-overrun, inc_front-used}
use speutils_debs.Fifo.Port.{Slot, Port, open_slot, put_next}
use speutils_debs.Fifo.Submit.{begin_port, skip_unkicked, kick_port, register_port}
use speutils_debs.Fifo.Submit.Task.{
  HasSlot, add_all, written, add_all-Filled, add_port-room, put_next_lem,
}
use speutils_debs.Fifo.Submit.Kick.{
  SomeStored, send_front-atomic, submit_port, submit_port-Submitted,
}

put_all : List ℕ → Port → Outcome Port
put_all [] p = ok p
put_all (w ∷ ws) p = do q ← put_next w p; put_all ws q

put_all-add_all :
    (ws : List ℕ) (p : Port) (f : ℕ) (slot : Slot)
    → p.entry_p ≡ some f
    → HasSlot p f slot
    → p.entry_count + length ws ≤ 31
    → put_all ws p ≡ add_all ws p
unfolding put_all add_all
put_all-add_all [] p f slot e has le = refl
put_all-add_all (w ∷ ws) p f slot e has le =
    let slot1 = set slot p.entry_count (u32 w) in
    let next : Port = record p { tasks = set p.tasks f slot1; entry_count = p.entry_count + 1 } in
    let has1 : HasSlot next f slot1 = (
      get_elem?-set_self p.tasks f slot1 (get_elem?-lt p.tasks f has.0),
      length-set slot _ _ ∙ has.1,
    ) in
    rw (add_port-room w p (omega arith), put_next_lem w p f slot e has (omega arith))
      (put_all-add_all ws next f slot1 e has1 (omega arith))

abbrev program_words : ℕ → ℕ → List ℕ
program_words addr size = Messages.register_program ∷ size ∷ addr / 2 ^ 32 ∷ addr ∷ []

register_port-put_all :
    (stored : List Bool) (addr size : ℕ) (p : Port)
    → register_port stored addr size p
      ≡ (put_all (program_words addr size) (open_slot p) >>= kick_port stored)
unfolding register_port put_all
register_port-put_all stored addr size p = simp (← >>=_assoc)

-- What fifoRegisterProgram leaves in a queue whose front slot was `slot`.
abbrev pub Registered : ℕ → ℕ → Port → Slot → Port → Type 0
Registered addr size p slot q =
    (q.ring ≡ inc_front p.ring)
    × (q.atomic ≡ record { count = get_front p.ring; state = 1 })
    × (q.is_kicked ≡ true)
    × ((new : Slot) × HasSlot q (get_front p.ring) new
        × ((i : ℕ) → get_elem? new i ≡ written 0 (program_words addr size) slot i))

-- On a queue that has a slot at the front, fifoRegisterProgram succeeds as soon as a conditional store
-- does: the slot at the front starts with the command, the size and the two halves of the address,
-- and is kicked. It does so whether or not the ring has a free slot, and whether or not the last task
-- was kicked.
pub register_port-Registered :
    (stored : List Bool) (addr size : ℕ) (p : Port) (slot : Slot)
    → SomeStored stored
    → HasSlot p (get_front p.ring) slot
    → (q : Port) × (register_port stored addr size p ≡ ok q) × Registered addr size p slot q
unfolding kick_port open_slot
register_port-Registered stored addr size p slot tries has =
    let f = get_front p.ring in
    let ws = program_words addr size in
    let (new, runs, len, words) = add_all-Filled ws (open_slot p) f slot refl has (omega arith) in
    let full : Port = record (open_slot p) { tasks = set p.tasks f new; entry_count = 4 } in
    (
      record full {
        atomic = record { count = f; state = 1 };
        is_kicked = true;
        ring = inc_front p.ring;
      },
      register_port-put_all stored addr size p
          ∙ rw (
            put_all-add_all ws (open_slot p) f slot refl has (omega arith),
            runs,
            send_front-atomic stored full tries,
          ),
      (
        refl,
        refl,
        refl,
        (new, (get_elem?-set_self p.tasks f new (get_elem?-lt p.tasks f has.0), len), words),
      ),
    )

-- On a valid ring without a free slot, registering a program makes the queue look empty, although all
-- its slots but one were still to be worked on.
pub register_port-overrun :
    (stored : List Bool) (addr size : ℕ) (p : Port) (slot : Slot)
    → SomeStored stored
    → HasSlot p (get_front p.ring) slot
    → IsValid p.ring
    → has_free p.ring ≡ false
    → (q : Port) × (register_port stored addr size p ≡ ok q)
      × (used p.ring + 1 ≡ p.ring.size)
      × (has_remaining q.ring ≡ false)
register_port-overrun stored addr size p slot tries has v full =
    let (q, runs, left) = register_port-Registered stored addr size p slot tries has in
    let (count, _, none_left) = inc_front-overrun v full in
    (q, runs, count, ap has_remaining left.0 ∙ none_left)

-- The queue with the front moved on over the task that was not kicked.
abbrev pub skipped : Port → Port
skipped p = record p { ring = inc_front p.ring; is_kicked = true }

submit_port-skipped :
    (stored : List Bool) (command handle : ℕ) (args : List ℕ) (p : Port)
    → p.is_kicked ≡ false
    → submit_port stored command handle args p ≡ submit_port stored command handle args (skipped p)
unfolding submit_port begin_port skip_unkicked open_slot
submit_port-skipped stored command handle args p e = rw e

-- If the last task of a queue was not kicked and its valid ring has exactly one free slot, the test of
-- selectfifo lets a task pass, but fifoBegin and fifoKick move the front on twice: afterwards the
-- queue looks empty, although all its slots but two were still to be worked on.
pub submit_port-overrun :
    (stored : List Bool) (command handle : ℕ) (args : List ℕ) (p : Port) (slot : Slot)
    → SomeStored stored
    → p.is_kicked ≡ false
    → HasSlot p (get_front (inc_front p.ring)) slot
    → IsValid p.ring
    → has_free p.ring ≡ true
    → has_free (inc_front p.ring) ≡ false
    → (q : Port) × (submit_port stored command handle args p ≡ ok q)
      × (used p.ring + 2 ≡ p.ring.size)
      × (has_remaining q.ring ≡ false)
submit_port-overrun stored command handle args p slot tries unkicked has v free last =
    let (q, runs, left) =
      submit_port-Submitted stored command handle args (skipped p) slot tries refl has in
    let (v', more, _, size) = inc_front-used v free in
    let (count, _, none_left) = inc_front-overrun v' last in
    (
      q,
      submit_port-skipped stored command handle args p unkicked ∙ runs,
      omega (arith, more, count, size),
      ap has_remaining left.0 ∙ none_left,
    )
