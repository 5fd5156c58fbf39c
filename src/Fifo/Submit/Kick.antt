-- ===== src/Fifo/Submit/Kick.antt =====
-- fifoBegin, fifoAdd and fifoKick on one queue: a whole task.
use speutils_debs.Base.{
  ℕ, ◌+◌, ◌≡◌, refl, ◌∙◌, >>=_assoc, ◌⊎◌, inl, inr, Bool, true, false, List, [], ◌∷◌, arith,
  if◌then◌else◌, ◌==◌, get_elem?, set, length, Outcome, ok, ◌>>=◌, get_elem?-lt, get_elem?-set_self,
}
use Prim.Native.Nat.{min}
use speutils_debs.Ring.{inc_front, get_front}
use speutils_debs.Fifo.Port.{Slot, Port, open_slot}
use speutils_debs.Fifo.Submit.{begin_port, send_front, kick_port}
use speutils_debs.Fifo.Submit.Task.{HasSlot, add_all, written, add_all-Filled, begin_port-add_all}

-- Some try of the conditional store succeeds.
abbrev pub SomeStored : List Bool → Type 0
SomeStored [] = ⊥
SomeStored (stored ∷ later) = (stored ≡ true) ⊎ SomeStored later

-- As soon as some conditional store succeeds, send_front returns, and then the shared line holds the
-- front of the ring as its count and 1 as its state, whatever it held and however many tries failed.
pub send_front-atomic :
    (stored : List Bool) (p : Port)
    → SomeStored stored
    → send_front stored p
      ≡ ok (record p { atomic = record { count = get_front p.ring; state = 1 } })
unfolding send_front
send_front-atomic [] p n = absurd n
send_front-atomic (true ∷ later) p n = ground arith
send_front-atomic (false ∷ later) p (inl e) = absurd (cc)
send_front-atomic (false ∷ later) p (inr n) =
    let state = if p.atomic.state == 1 then p.atomic.state else 1 in
    send_front-atomic later (record p { atomic = record (p.atomic) { state = state } }) n

-- A task: fifoBegin, fifoAdd for each argument, fifoKick.
unfoldable pub submit_port : List Bool → ℕ → ℕ → List ℕ → Port → Outcome Port
submit_port stored command handle args p = do
  begun ← begin_port command handle p
  full ← add_all args begun
  kick_port stored full

-- What a task leaves in a queue whose front slot was `slot`.
abbrev pub Submitted : ℕ → ℕ → List ℕ → Port → Slot → Port → Type 0
Submitted command handle args p slot q =
    (q.ring ≡ inc_front p.ring)
    × (q.atomic ≡ record { count = get_front p.ring; state = 1 })
    × (q.is_kicked ≡ true)
    × (q.acks ≡ p.acks)
    × ((new : Slot) × (q.tasks ≡ set p.tasks (get_front p.ring) new)
        × HasSlot q (get_front p.ring) new
        × ((i : ℕ) → get_elem? new i ≡ written 0 (command ∷ handle ∷ args) slot i))

-- On a queue whose last task was kicked and that has a slot at the front, fifoBegin, fifoAdd for each
-- argument and fifoKick succeed as soon as a conditional store does. The slot at the front then holds
-- the command, the handle and the arguments, as 32-bit words, up to the word before the last: those
-- behind are dropped, and the other words stay. The other slots and the acknowledgements stay, the
-- shared line tells the SPE the slot's number, and the front has moved on by one.
pub submit_port-Submitted :
    (stored : List Bool) (command handle : ℕ) (args : List ℕ) (p : Port) (slot : Slot)
    → SomeStored stored
    → p.is_kicked ≡ true
    → HasSlot p (get_front p.ring) slot
    → (q : Port) × (submit_port stored command handle args p ≡ ok q)
      × Submitted command handle args p slot q
unfolding submit_port kick_port open_slot
submit_port-Submitted stored command handle args p slot tries kicked has =
    let f = get_front p.ring in
    let (new, runs, len, words) =
      add_all-Filled (command ∷ handle ∷ args) (open_slot p) f slot refl has (omega arith) in
    let full : Port = record (open_slot p) {
      tasks = set p.tasks f new;
      entry_count = min 31 (0 + length (command ∷ handle ∷ args));
    } in
    let sent = send_front-atomic stored full tries in
    (
      record full {
        atomic = record { count = f; state = 1 };
        is_kicked = true;
        ring = inc_front p.ring;
      },
      >>=_assoc (begin_port command handle p) (add_all args) (kick_port stored)
          ∙ rw (begin_port-add_all command handle args p f slot kicked refl has, runs, sent),
      (
        refl,
        refl,
        refl,
        refl,
        (new, refl, (get_elem?-set_self p.tasks f new (get_elem?-lt p.tasks f has.0), len), words),
      ),
    )
