-- ===== src/LinkedList.antt =====
-- shared/linkedlist.c and shared/linkedlist.h: a doubly linked list over an explicit heap. A
-- `struct list_s` lives outside the heap, so a function that updates one returns the new value.
use speutils_debs.Base.{
  ℕ, zero, suc, ◌+◌, ◌-◌, ◌%◌, ◌^◌, Bool, true, false, Option, none, some, ◌==◌, if◌then◌else◌, u32,
  Outcome, ok, fault, out_of_fuel, ◌>>=◌,
}
use speutils_debs.LinkedList.Memory.{Ptr, null, Node, Heap, write, load}
pub mod Memory
pub mod Chain
pub mod Add
pub mod Walk
pub mod Find
pub mod Unlink
pub mod Remove
mod Examples

-- struct list_s. `entries` is an int, given by its 32 bits.
pub record LinkedList : Type 0 where
  pub first : Ptr
  pub last : Ptr
  pub current : Ptr
  pub entries : ℕ

-- listInit; `memory` says whether malloc returned a block, which the code does not test.
unfoldable pub list_init : (memory : Bool) → Outcome LinkedList
list_init memory =
    if memory then ok (record { first = null; last = null; current = null; entries = 0 }) else fault

-- listAddEntry; `fresh` is what malloc returns. The function has no return statement.
unfoldable pub list_add_entry : (fresh : Ptr) → ℕ → LinkedList → Heap → Outcome (LinkedList × Heap)
list_add_entry fresh entry list h =
    if fresh == null
    then fault
    else if list.first == null
    then ok (
      record list { first = fresh; last = fresh; entries = u32 (list.entries + 1) },
      write h fresh (some (record { previous = null; next = null; entry = entry })),
    )
    else do
      let made = write h fresh (some (record { previous = list.last; next = null; entry = entry }))
      tail ← load made list.last
      ok (
        record list { last = fresh; entries = u32 (list.entries + 1) },
        write made list.last (some (record tail { next = fresh })),
      )

-- The loop of listRemoveEntry, from `list.current` on: whether it leaves by `break`.
unfoldable pub find : ℕ → ℕ → LinkedList → Heap → Outcome (Bool × LinkedList)
find zero entry list h = out_of_fuel
find (suc fuel) entry list h = do
  n ← load h list.current
  let rest = find fuel entry (record list { current = n.next }) h
  if n.entry == entry
      then ok (true, list)
      else if list.current == list.last
      then ok (false, list)
      else rest

-- if (list->current->previous != NULL) list->current->previous->next = list->current->next;
unfoldable pub skip_current : LinkedList → Heap → Outcome Heap
skip_current list h = do
  n ← load h list.current
  if n.previous == null
      then ok h
      else do p ← load h n.previous; ok (write h n.previous (some (record p { next = n.next })))

-- What listRemoveEntry does behind its loop.
unfoldable pub unlink : LinkedList → Heap → Outcome (LinkedList × Heap)
unlink list h = do
  g ← skip_current list h
  n ← load g list.current
  let last = if list.current == list.last then n.previous else list.last
  let first = if list.current == list.first then n.next else list.first
  ok (
    record {
      first = first;
      last = last;
      current = first;
      entries = u32 (list.entries + 2 ^ 32 - 1);
    },
    write g list.current none,
  )

-- listRemoveEntry; `true` is its result 0, and `false` its result -1.
unfoldable pub list_remove_entry :
    (fuel : ℕ) → ℕ → LinkedList → Heap → Outcome (Bool × LinkedList × Heap)
list_remove_entry fuel entry list h = do
  (found, l) ← find fuel entry (record list { current = list.first }) h
  if found then (do (l', g) ← unlink l h; ok (true, l', g)) else ok (false, l, h)

-- listEntries
unfoldable pub list_entries : LinkedList → ℕ
list_entries list = list.entries

-- listFirstEntry
unfoldable pub list_first_entry : LinkedList → Heap → Outcome (ℕ × LinkedList)
list_first_entry list h = do
  n ← load h list.first
  ok (n.entry, record list { current = list.first })

-- listNextEntry; the result 0 is NULL.
unfoldable pub list_next_entry : LinkedList → Heap → Outcome (ℕ × LinkedList)
list_next_entry list h = do
  n ← load h list.current
  if n.next == null
      then ok (null, record list { current = n.next })
      else do m ← load h n.next; ok (m.entry, record list { current = n.next })
