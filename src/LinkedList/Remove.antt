-- ===== src/LinkedList/Remove.antt =====
-- listRemoveEntry: which cell it unlinks, and what it leaves behind.
use speutils_debs.Base.{
  ℕ, zero, suc, ◌<◌, ◌≡◌, refl, sym, ap, ◌∙◌, Bool, true, false, Outcome, none, [], ◌∷◌, ◌++◌,
  arith, length, ok, fault,
}
use speutils_debs.LinkedList.Memory.{null, Heap, load}
use speutils_debs.LinkedList.Chain.{
  Cell, Cells, IsDouble, Lacks, last_of-append, IsDouble-at, IsDouble-next, Chain-right,
}
use speutils_debs.LinkedList.{LinkedList, find, list_remove_entry}
use speutils_debs.LinkedList.Add.{IsList}
use speutils_debs.LinkedList.Find.{find-hit, find-miss}
use speutils_debs.LinkedList.Unlink.{unlink-any, unlink-dangling}

abbrev missing_result : LinkedList → Heap → Cells → Outcome (Bool × LinkedList × Heap)
missing_result l h [] = fault
missing_result l h (c ∷ xs) = ok (false, record l { current = l.last }, h)

-- On a list that the heap holds and none of whose cells has the entry, listRemoveEntry returns -1,
-- leaves the heap and the cells as they are and `current` on the last cell; on the empty list it reads
-- through a null pointer.
pub list_remove_entry-missing :
    (fuel e : ℕ) (l : LinkedList) (h : Heap) (xs : Cells)
    → IsList h l xs
    → Lacks e xs
    → length xs < fuel
    → list_remove_entry fuel e l h ≡ missing_result l h xs
unfolding list_remove_entry
list_remove_entry-missing zero e l h xs is lacks h' = absurd (omega arith)
list_remove_entry-missing (suc k) e l h [] is lacks h' =
    unfold find load in ground (arith, is.first)
list_remove_entry-missing (suc k) e l h (c ∷ xs) is lacks h' = ground (
  arith,
  find-miss (suc k) e (record l { current = l.first }) h c xs is.chain lacks is.first is.last
      (omega arith),
)

-- On a doubly linked list that the heap holds, listRemoveEntry returns 0 for an entry that some cell
-- has: it unlinks the first such cell, keeps the others in order, gives the cell back and puts
-- `current` on the first cell.
pub list_remove_entry-first :
    (fuel e : ℕ) (l : LinkedList) (h : Heap) (xs : Cells) (c : Cell) (ys : Cells)
    → IsList h l (xs ++ c ∷ ys)
    → IsDouble null (xs ++ c ∷ ys)
    → Lacks e xs
    → c.entry ≡ e
    → length xs < fuel
    → (l' : LinkedList) × (g : Heap) × (list_remove_entry fuel e l h ≡ ok (true, l', g))
      × IsList g l' (xs ++ ys)
      × (g c.at ≡ none)
      × (l'.current ≡ l'.first)
unfolding list_remove_entry
list_remove_entry-first fuel e l h xs c ys is dbl lacks hit enough =
    let found =
      find-hit fuel e (record l { current = l.first }) h xs c ys is.chain lacks hit is.first
        (is.last ∙ last_of-append null xs c ys) enough in
    let (l', g, runs, is', gone, cur) = unlink-any h l c ys xs is (IsDouble-at null xs c ys dbl) in
    (l', g, rw (found, runs), is', gone, cur)

-- When the cell removed from a doubly linked list has a cell behind it, the `previous` of that next
-- cell is left pointing at the block given back: removing the next cell's entry afterwards, where no
-- earlier cell has it, reads through the dangling pointer.
pub list_remove_entry-dangling :
    (fuel e : ℕ) (l : LinkedList) (h : Heap) (xs : Cells) (c d : Cell) (ys : Cells)
    → IsList h l (xs ++ c ∷ d ∷ ys)
    → IsDouble null (xs ++ c ∷ d ∷ ys)
    → Lacks e xs
    → c.entry ≡ e
    → Lacks d.entry xs
    → length xs < fuel
    → (l' : LinkedList) × (g : Heap) × (list_remove_entry fuel e l h ≡ ok (true, l', g))
      × (list_remove_entry fuel d.entry l' g ≡ fault)
unfolding list_remove_entry
list_remove_entry-dangling fuel e l h xs c d ys is dbl lacks hit lacks_d enough =
    let (l', g, runs, is', gone, _) =
      list_remove_entry-first fuel e l h xs c (d ∷ ys) is dbl lacks hit enough in
    let found =
      find-hit fuel d.entry (record l' { current = l'.first }) g xs d ys is'.chain lacks_d refl
        is'.first (is'.last ∙ last_of-append null xs d ys) enough in
    let on_d = Chain-right g xs (d ∷ ys) is'.chain in
    let points = IsDouble-next null xs c d ys dbl in
    let faults =
      unlink-dangling g l' d ys on_d (ap g points ∙ gone)
        (λ q. (Chain-right h xs (c ∷ d ∷ ys) is.chain).0 (sym points ∙ q)) in
    (l', g, runs, rw (found, faults))
