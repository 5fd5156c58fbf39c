-- ===== src/LinkedList/Memory.antt =====
-- The memory of shared/linkedlist.c: entries (struct list_entry_s) at addresses.
use speutils_debs.Base.{
  ℕ, ◌≡◌, ◌≢◌, Option, none, some, arith, ◌==◌, if◌then◌else◌, Outcome, ok, fault, deref,
}

abbrev pub Ptr : Type 0
Ptr = ℕ

abbrev pub null : Ptr
null = 0

-- struct list_entry_s. `entry` is a void pointer that the list never follows.
pub record Node : Type 0 where
  pub previous : Ptr
  pub next : Ptr
  pub entry : ℕ

-- `none` is an address that holds no live entry.
abbrev pub Heap : Type 0
Heap = Ptr → Option Node

unfoldable pub write : Heap → Ptr → Option Node → Heap
write h p c q = if q == p then c else h q

-- A read through a null or dangling pointer is a fault.
unfoldable pub load : Heap → Ptr → Outcome Node
load h p = if p == null then fault else deref (h p)

pub load-ok : (h : Heap) (p : Ptr) {n : Node} → p ≢ null → h p ≡ some n → load h p ≡ ok n
unfolding load
load-ok h p ne e = ground arith

pub load-dangling : (h : Heap) (p : Ptr) → h p ≡ none → load h p ≡ fault
unfolding load
load-dangling h p e = ground arith

pub write_self : (h : Heap) (p : Ptr) (c : Option Node) → write h p c p ≡ c
unfolding write
write_self h p c = ground arith

pub write_ne : (h : Heap) (p q : Ptr) (c : Option Node) → q ≢ p → write h p c q ≡ h q
unfolding write
write_ne h p q c ne = ground arith
