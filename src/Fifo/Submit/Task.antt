-- ===== src/Fifo/Submit/Task.antt =====
-- fifoBegin and fifoAdd on one queue: the words that they leave in the slot at the front.
use speutils_debs.Base.{
  ℕ, suc, ◌+◌, ◌-◌, ◌≤◌, ◌<◌, ◌≡◌, ap, ◌∙◌, ◌⊎◌, inl, inr, true, false, Option, none, some, List,
  [], ◌∷◌, arith, not, ◌||◌, ltb, if◌then◌else◌, ◌==◌, get_elem?, set, length, u32, Outcome, ok,
  Bool-cases, ◌>>=◌, length-set, get_elem?-set, set_self, set-set, get_elem?-lt, get_elem?-set_self,
}
use mathlib.Core.Path.{ap₂}
use Prim.Native.Nat.{min}
use speutils_debs.Messages
use speutils_debs.Ring.{get_front}
use speutils_debs.Fifo.Port.{Slot, Port, put, open_slot, put_next}
use speutils_debs.Fifo.Submit.{skip_unkicked, begin_port, add_port}

-- The task memory has a slot of task_words words at the front.
abbrev pub HasSlot : Port → ℕ → Slot → Type 0
HasSlot p f slot = (get_elem? p.tasks f ≡ some slot) × (length slot ≡ Messages.task_words)

pub put_next_lem :
    (word : ℕ) (p : Port) (f : ℕ) (slot : Slot)
    → p.entry_p ≡ some f
    → HasSlot p f slot
    → p.entry_count < Messages.task_words
    → put_next word p
      ≡ ok (record p {
        tasks = set p.tasks f (set slot p.entry_count (u32 word));
        entry_count = p.entry_count + 1;
      })
unfolding put_next put
put_next_lem word p f slot e has lt = ground (arith, e, has)

-- Calls of fifoAdd in a row.
unfoldable pub add_all : List ℕ → Port → Outcome Port
add_all [] p = ok p
add_all (arg ∷ args) p = do q ← add_port arg p; add_all args q

-- Word `i` of a slot when the words of `args` from position `k` on were added to it: the last word of
-- the slot stays.
abbrev pub written : ℕ → List ℕ → Slot → ℕ → Option ℕ
written k args slot i =
    if ltb i k || not (ltb i 31)
    then get_elem? slot i
    else elim (get_elem? args (i - k)) [ none ↦ get_elem? slot i | some w ↦ some (u32 w) ]

abbrev pub Filled : ℕ → List ℕ → Port → ℕ → Slot → Outcome Port → Type 0
Filled k args p f slot out =
    (new : Slot) × (out
      ≡ ok (record p { tasks = set p.tasks f new; entry_count = min 31 (k + length args) }))
    × (length new ≡ Messages.task_words)
    × ((i : ℕ) → get_elem? new i ≡ written k args slot i)

written-step :
    (k arg : ℕ) (args : List ℕ) (slot : Slot) (i : ℕ)
    → k < 31
    → length slot ≡ Messages.task_words
    → written (k + 1) args (set slot k (u32 arg)) i ≡ written k (arg ∷ args) slot i
written-step k arg args slot i lt len = elim (compare_cases i k) [
  | inl below ↦ ground (arith, get_elem?-set slot i k (u32 arg))
  | inr (inl at) ↦
      let here : i - k ≡ 0 = omega arith in
      ground (arith, get_elem?-set slot i k (u32 arg), ap (get_elem? (arg ∷ args)) here)
  | inr (inr above) ↦
      let behind : i - k ≡ suc (i - (k + 1)) = omega arith in
      ground (arith, get_elem?-set slot i k (u32 arg), ap (get_elem? (arg ∷ args)) behind)
]
  where
    compare_cases : (a b : ℕ) → (a < b) ⊎ ((a ≡ b) ⊎ (b < a))
    compare_cases a b = ground arith

written_full : (args : List ℕ) (slot : Slot) (i : ℕ) → written 31 args slot i ≡ get_elem? slot i
written_full args slot i = ground arith

add_port-full : (arg : ℕ) (p : Port) → p.entry_count ≡ 31 → add_port arg p ≡ ok p
unfolding add_port
add_port-full arg p e = ground (arith, e)

pub add_port-room : (arg : ℕ) (p : Port) → p.entry_count < 31 → add_port arg p ≡ put_next arg p
unfolding add_port
add_port-room arg p h = ground arith

pub add_all-Filled :
    (args : List ℕ) (p : Port) (f : ℕ) (slot : Slot)
    → p.entry_p ≡ some f
    → HasSlot p f slot
    → p.entry_count ≤ 31
    → Filled p.entry_count args p f slot (add_all args p)
unfolding add_all
add_all-Filled [] p f slot e has le =
    (slot, ground (arith, set_self p.tasks f slot has.0), has.1, λ i. ground arith)
add_all-Filled (arg ∷ args) p f slot e has le = elim (Bool-cases (p.entry_count == 31)) [
  | inl full ↦
      let (new, runs, len, words) = add_all-Filled args p f slot e has le in
      (
        new,
        rw (add_port-full arg p (ground arith)) (
            runs
            ∙ ap (λ n. ok (record p { tasks = set p.tasks f new; entry_count = n }))
                (ground arith)),
        len,
        λ i. words i ∙ ground (arith, full),
      )
  | inr room ↦
      let slot1 = set slot p.entry_count (u32 arg) in
      let next : Port = record p { tasks = set p.tasks f slot1; entry_count = p.entry_count + 1 } in
      let has1 : HasSlot next f slot1 = (
        get_elem?-set_self p.tasks f slot1 (get_elem?-lt p.tasks f has.0),
        length-set slot _ _ ∙ has.1,
      ) in
      let (new, runs, len, words) = add_all-Filled args next f slot1 e has1 (ground arith) in
      (
        new,
        rw (add_port-room arg p (ground arith), put_next_lem arg p f slot e has (ground arith))
            (runs
              ∙ ap₂ (λ t n. ok (record p { tasks = t; entry_count = n }))
                  (set-set p.tasks f slot1 new) (omega arith)),
        len,
        λ i. words i ∙ written-step p.entry_count arg args slot i (ground arith) has.1,
      )
]

pub begin_port-add_all :
    (command handle : ℕ) (args : List ℕ) (p : Port) (f : ℕ) (slot : Slot)
    → p.is_kicked ≡ true
    → get_front p.ring ≡ f
    → HasSlot p f slot
    → (begin_port command handle p >>= add_all args)
      ≡ add_all (command ∷ handle ∷ args) (open_slot p)
unfolding begin_port skip_unkicked add_all open_slot
begin_port-add_all command handle args p f slot kicked front has =
    let slot1 = set slot 0 (u32 command) in
    let next : Port = record p {
      tasks = set p.tasks f slot1;
      entry_count = 1;
      entry_p = some (get_front p.ring);
      is_kicked = false;
    } in
    let has1 : HasSlot next f slot1 = (
      get_elem?-set_self p.tasks f slot1 (get_elem?-lt p.tasks f has.0),
      length-set slot _ _ ∙ has.1,
    ) in
    let opened : Port = record p {
      entry_count = 0;
      entry_p = some (get_front p.ring);
      is_kicked = false;
    } in
    rw
      (
        kicked,
        add_port-room command opened (omega arith),
        put_next_lem command opened f slot (ap some front) has (omega arith),
      )
      (rw (add_port-room handle next (omega arith)))
