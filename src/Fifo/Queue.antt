-- ===== src/Fifo/Queue.antt =====
-- src/spefifo.c, one queue as a whole: a task and the slots that are occupied.
use mathlib.Core.Path.{subst}
use speutils_debs.Base.{
  ℕ, ◌≡◌, ◌≢◌, sym, ap, ◌∙◌, Bool, true, List, [], ◌∷◌, ◌++◌, get_elem?, set, length,
  get_elem?-set_ne, ok,
}
use speutils_debs.Ring.{RingContext, get_front, has_free}
use speutils_debs.Ring.Count.{IsValid, inc_front-used, inc_front-IsValid}
use speutils_debs.Ring.Pending.{pending, Avoids, inc_front-pending}
use speutils_debs.Fifo.Port.{Ack, Slot, Port}
use speutils_debs.Fifo.Submit.Task.{HasSlot}
use speutils_debs.Fifo.Submit.Kick.{SomeStored, Submitted, submit_port, submit_port-Submitted}
use speutils_debs.Fifo.Collect.Release.{IsSettled}

Avoids-left : (i : ℕ) (xs ys : List ℕ) → Avoids i (xs ++ ys) → Avoids i xs
Avoids-left i [] ys a = tt
Avoids-left i (x ∷ xs) ys a = (a.0, Avoids-left i xs ys a.1)

-- The slots of a list hold the same words in two queues.
abbrev pub SameSlots : Port → Port → List ℕ → Type 0
SameSlots p q [] = Unit
SameSlots p q (i ∷ is) = (get_elem? q.tasks i ≡ get_elem? p.tasks i) × SameSlots p q is

SameSlots-Avoids :
    (p q : Port) (f : ℕ) (is : List ℕ)
    → ((j : ℕ) → f ≢ j → get_elem? q.tasks j ≡ get_elem? p.tasks j)
    → Avoids f is
    → SameSlots p q is
SameSlots-Avoids p q f [] same a = tt
SameSlots-Avoids p q f (i ∷ is) same a = (same i a.0, SameSlots-Avoids p q f is same a.1)

-- On a queue in order whose last task was kicked and which has a free slot, a task is appended behind
-- the slots that are occupied: their words stay, the queue stays in order, and the slot that was at the
-- front is the last occupied one and holds the task.
pub submit_port-append :
    (stored : List Bool) (command handle : ℕ) (args : List ℕ) (p : Port) (slot : Slot)
    → SomeStored stored
    → p.is_kicked ≡ true
    → HasSlot p (get_front p.ring) slot
    → IsSettled p
    → has_free p.ring ≡ true
    → (q : Port) × (submit_port stored command handle args p ≡ ok q)
      × Submitted command handle args p slot q
      × IsSettled q
      × (pending q.ring ≡ pending p.ring ++ get_front p.ring ∷ [])
      × SameSlots p q (pending p.ring)
submit_port-append stored command handle args p slot tries kicked has s free =
    let (q, runs, left) =
      submit_port-Submitted stored command handle args p slot tries kicked has in
    let (out, grown) = inc_front-pending s.valid free in
    let grown' : pending q.ring ≡ pending p.ring ++ get_front p.ring ∷ [] =
      ap pending left.0 ∙ grown in
    let settled : IsSettled q = record {
      valid = subst (λ r. IsValid r) (sym left.0) (inc_front-IsValid s.valid);
      room =
          ap (λ (l : List Ack). length l) left.3
          ∙ s.room
          ∙ sym (ap (λ (r : RingContext). r.size) left.0 ∙ (inc_front-used s.valid free).3);
      clear = λ i a e avoids.
          s.clear i a (sym (ap (λ (l : List Ack). get_elem? l i) left.3) ∙ e) (
            Avoids-left i (pending p.ring) (get_front p.ring ∷ [])
              (subst (Avoids i) grown' avoids));
    } in
    (
      q,
      runs,
      left,
      settled,
      grown',
      SameSlots-Avoids p q (get_front p.ring) (pending p.ring) (others q _ left.4.1) out,
    )
  where
    others :
        (q : Port) (new : Slot)
        → q.tasks ≡ set p.tasks (get_front p.ring) new
        → (j : ℕ) → get_front p.ring ≢ j
        → get_elem? q.tasks j ≡ get_elem? p.tasks j
    others q new e j ne =
        ap (λ (l : List Slot). get_elem? l j) e ∙ get_elem?-set_ne p.tasks (get_front p.ring) j _ ne
