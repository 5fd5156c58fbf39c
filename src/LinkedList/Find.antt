-- ===== src/LinkedList/Find.antt =====
-- The loop of listRemoveEntry: where it stops.
use speutils_debs.Base.{
  ℕ, zero, suc, ◌<◌, ◌≡◌, refl, sym, true, false, [], ◌∷◌, ◌++◌, arith, length, ok,
}
use speutils_debs.LinkedList.Memory.{Heap, load-ok}
use speutils_debs.LinkedList.Chain.{
  Cell, Cells, ptr_of, last_of, Chain, Lacks, Avoids-right, last_of-ne,
}
use speutils_debs.LinkedList.{LinkedList, find}

-- The loop stops at the first cell with the entry.
pub find-hit :
    (fuel e : ℕ) (l : LinkedList) (h : Heap) (xs : Cells) (c : Cell) (ys : Cells)
    → Chain h (xs ++ c ∷ ys)
    → Lacks e xs
    → c.entry ≡ e
    → l.current ≡ ptr_of (xs ++ c ∷ ys)
    → l.last ≡ last_of c.at ys
    → length xs < fuel
    → find fuel e l h ≡ ok (true, record l { current = c.at })
unfolding find
find-hit zero e l h xs c ys ch lacks hit cur las fuel = absurd (omega arith)
find-hit (suc k) e l h [] c ys ch lacks hit cur las fuel = ground (arith, load-ok h c.at ch.0 ch.1)
find-hit (suc k) e l h (x ∷ xs) c ys ch lacks hit cur las fuel =
    let out = Avoids-right x.at xs (c ∷ ys) ch.2 in
    ground (
      arith,
      load-ok h x.at ch.0 ch.1,
      last_of-ne x.at c.at ys (λ q. out.0 (sym q)) out.1,
      lacks.0,
      find-hit k e (record l { current = ptr_of (xs ++ c ∷ ys) }) h xs c ys ch.3 lacks.1 hit refl
          las (omega arith),
    )

-- Without such a cell it stops at the last one.
pub find-miss :
    (fuel e : ℕ) (l : LinkedList) (h : Heap) (c : Cell) (xs : Cells)
    → Chain h (c ∷ xs)
    → Lacks e (c ∷ xs)
    → l.current ≡ c.at
    → l.last ≡ last_of c.at xs
    → length xs < fuel
    → find fuel e l h ≡ ok (false, record l { current = l.last })
unfolding find
find-miss zero e l h c xs ch lacks cur las fuel = absurd (omega arith)
find-miss (suc k) e l h c [] ch lacks cur las fuel =
    ground (arith, load-ok h c.at ch.0 ch.1, lacks.0)
find-miss (suc k) e l h c (x ∷ xs) ch lacks cur las fuel = ground (
  arith,
  load-ok h c.at ch.0 ch.1,
  last_of-ne c.at x.at xs (λ q. ch.2.0 (sym q)) ch.2.1,
  lacks.0,
  find-miss k e (record l { current = x.at }) h x xs ch.3 lacks.1 refl las (omega arith),
)
