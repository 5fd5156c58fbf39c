-- ===== src/LinkedList/Walk.antt =====
-- listFirstEntry and listNextEntry, on the cells of a list.
use speutils_debs.Base.{ℕ, ◌≡◌, [], ◌∷◌, arith, Outcome, ok, fault}
use speutils_debs.LinkedList.Memory.{null, Heap, load}
use speutils_debs.LinkedList.Chain.{Cell, Cells, ptr_of, Chain}
use speutils_debs.LinkedList.{LinkedList, list_first_entry, list_next_entry}
use speutils_debs.LinkedList.Add.{IsList}

-- The entry of the first cell, or NULL.
abbrev pub entry_of : Cells → ℕ
entry_of [] = null
entry_of (c ∷ xs) = c.entry

abbrev first_result : LinkedList → Cells → Outcome (ℕ × LinkedList)
first_result l [] = fault
first_result l (c ∷ xs) = ok (c.entry, record l { current = c.at })

-- On a list that the heap holds and that has a cell, listFirstEntry returns the first entry and puts
-- `current` on its cell; on an empty one it reads through a null pointer.
pub list_first_entry_lem :
    (l : LinkedList) (h : Heap) (xs : Cells)
    → IsList h l xs
    → list_first_entry l h ≡ first_result l xs
unfolding list_first_entry load
list_first_entry_lem l h [] is = ground (arith, is.first)
list_first_entry_lem l h (c ∷ xs) is = ground (arith, is.first, is.chain.0, is.chain.1)

-- With `current` on a cell of a list that the heap holds, listNextEntry returns the entry of the cell
-- behind it and moves `current` there; behind the last cell it returns NULL and leaves NULL in
-- `current`.
pub list_next_entry_lem :
    (l : LinkedList) (h : Heap) (c : Cell) (ys : Cells)
    → Chain h (c ∷ ys)
    → l.current ≡ c.at
    → list_next_entry l h ≡ ok (entry_of ys, record l { current = ptr_of ys })
unfolding list_next_entry load
list_next_entry_lem l h c [] ch e = ground (arith, e, ch.0, ch.1)
list_next_entry_lem l h c (d ∷ ys) ch e = ground (arith, e, ch.0, ch.1, ch.3.0, ch.3.1)
