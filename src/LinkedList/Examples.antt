-- ===== src/LinkedList/Examples.antt =====
-- linkedlist.c: a list of three entries.
use speutils_debs.Base.{
  ◌≡◌, refl, true, false, none, some, [], ◌∷◌, arith, if◌then◌else◌, ◌==◌, ok, fault, Bool, deref,
  ◌>>=◌,
}
use speutils_debs.LinkedList.Memory.{null, Heap, load, write}
use speutils_debs.LinkedList.Chain.{Cell, IsDouble}
use speutils_debs.LinkedList.{
  LinkedList, list_add_entry, list_remove_entry, find, unlink, skip_current,
}
use speutils_debs.LinkedList.Add.{IsList, list_add_entry-append}
use speutils_debs.LinkedList.Remove.{
  list_remove_entry-missing, list_remove_entry-first, list_remove_entry-dangling,
}

abbrev c16 : Cell
c16 = record { at = 16; previous = null; entry = 5 }

abbrev c32 : Cell
c32 = record { at = 32; previous = 16; entry = 7 }

abbrev c48 : Cell
c48 = record { at = 48; previous = 32; entry = 9 }

abbrev heap : Heap
heap p =
    if p == 16
    then some (record { previous = null; next = 32; entry = 5 })
    else if p == 32
    then some (record { previous = 16; next = 48; entry = 7 })
    else if p == 48
    then some (record { previous = 32; next = null; entry = 9 })
    else none

abbrev list : LinkedList
list = record { first = 16; last = 48; current = null; entries = 3 }

list-IsList : IsList heap list (c16 ∷ c32 ∷ c48 ∷ [])
list-IsList = record {
  chain = (
    omega arith,
    refl,
    (omega arith, (omega arith, tt)),
    (omega arith, refl, (omega arith, tt), (omega arith, refl, tt, tt)),
  );
  first = refl;
  last = refl;
  entries = refl;
}

list-IsDouble : IsDouble null (c16 ∷ c32 ∷ c48 ∷ [])
list-IsDouble = (refl, (refl, (refl, tt)))

-- The second entry is unlinked, but the third one's `previous` still leads to it.
removes_second :
    (list_remove_entry 3 7 list heap >>= λ (r : Bool × LinkedList × Heap). deref (r.2 48))
    ≡ ok (record { previous = 32; next = null; entry = 9 })
unfolding list_remove_entry find unlink skip_current load write
removes_second = refl

list_add_entry-append_example :
    (l' : LinkedList) × (g : Heap) × (list_add_entry 64 11 list heap ≡ ok (l', g))
    × IsList g l' (c16 ∷ c32 ∷ c48 ∷ record { at = 64; previous = 48; entry = 11 } ∷ [])
    × (l'.current ≡ null)
list_add_entry-append_example =
    list_add_entry-append 64 11 list heap (c16 ∷ c32 ∷ c48 ∷ []) (omega arith) refl list-IsList

list_remove_entry-missing_example :
    list_remove_entry 4 6 list heap ≡ ok (false, record list { current = 48 }, heap)
list_remove_entry-missing_example =
    list_remove_entry-missing 4 6 list heap (c16 ∷ c32 ∷ c48 ∷ []) list-IsList
      (omega arith, (omega arith, (omega arith, tt))) (omega arith)

list_remove_entry-first_example :
    (l' : LinkedList) × (g : Heap) × (list_remove_entry 3 7 list heap ≡ ok (true, l', g))
    × IsList g l' (c16 ∷ c48 ∷ [])
    × (g 32 ≡ none)
    × (l'.current ≡ l'.first)
list_remove_entry-first_example =
    list_remove_entry-first 3 7 list heap (c16 ∷ []) c32 (c48 ∷ []) list-IsList list-IsDouble
      (omega arith, tt) refl (omega arith)

list_remove_entry-dangling_example :
    (l' : LinkedList) × (g : Heap) × (list_remove_entry 3 7 list heap ≡ ok (true, l', g))
    × (list_remove_entry 3 9 l' g ≡ fault)
list_remove_entry-dangling_example =
    list_remove_entry-dangling 3 7 list heap (c16 ∷ []) c32 c48 [] list-IsList list-IsDouble
      (omega arith, tt) refl (omega arith, tt) (omega arith)
