-- ===== src/LinkedList/Add.antt =====
-- listAddEntry, on the cells of a list.
use speutils_debs.Base.{
  ℕ, ◌+◌, ◌≡◌, ◌≢◌, refl, sym, ◌∙◌, none, some, [], ◌∷◌, ◌++◌, arith, length, length-append, u32,
  ok,
}
use speutils_debs.LinkedList.Memory.{
  Ptr, null, Node, Heap, write, load, load-ok, write_self, write_ne,
}
use speutils_debs.LinkedList.Chain.{
  Cell, Cells, ptr_of, last_of, node_of, Avoids, Chain, Avoids-append, last_of-ne, last_of-append,
  Chain-write, Avoids-free,
}
use speutils_debs.LinkedList.{LinkedList, list_add_entry}

-- The structure describes the cells that the heap holds.
pub record IsList (h : Heap) (l : LinkedList) (xs : Cells) : Type 0 where
  pub chain : Chain h xs
  pub first : l.first ≡ ptr_of xs
  pub last : l.last ≡ last_of null xs
  pub entries : l.entries ≡ u32 (length xs)

-- The last node of a chain, and the chain that a write of its `next` makes.
module _ (h : Heap) (d : Cell) (d_ne : d.at ≢ null) (d_holds : h d.at ≡ some (node_of d null)) where
  pub Chain-link :
      (c : Cell) (xs : Cells)
      → Chain h (c ∷ xs)
      → Avoids d.at (c ∷ xs)
      → (n : Node) × (load h (last_of c.at xs) ≡ ok n)
        × Chain (write h (last_of c.at xs) (some (record n { next = d.at }))) ((c ∷ xs) ++ d ∷ [])
  Chain-link c [] (ne, holds, out, rest) a = (
    node_of c null,
    load-ok h c.at ne holds,
    (
      ne,
      write_self h c.at _,
      ((λ e. a.0 (sym e)), tt),
      (d_ne, write_ne h c.at d.at _ a.0 ∙ d_holds, tt, tt),
    ),
  )
  Chain-link c (x ∷ xs) (ne, holds, out, rest) a =
      let (n, loads, chain) = Chain-link x xs rest a.1 in
      (
        n,
        loads,
        (
          ne,
          write_ne h (last_of x.at xs) c.at _
                (λ e. last_of-ne c.at x.at xs (λ q. out.0 (sym q)) out.1 (sym e))
              ∙ holds,
          Avoids-append c.at (x ∷ xs) (d ∷ []) out ((λ e. a.0 (sym e)), tt),
          chain,
        ),
      )

-- The cell behind `xs` at a new address.
abbrev added : Ptr → ℕ → Cells → Cell
added fresh entry xs = record { at = fresh; previous = last_of null xs; entry = entry }

-- On a list that the heap holds, with a block that malloc returned and that is no live entry,
-- listAddEntry puts a cell with the given entry behind the others; the cell's `previous` is the
-- cell that was last. `current` is left alone.
pub list_add_entry-append :
    (fresh : Ptr) (entry : ℕ) (l : LinkedList) (h : Heap) (xs : Cells)
    → fresh ≢ null
    → h fresh ≡ none
    → IsList h l xs
    → (l' : LinkedList) × (g : Heap) × (list_add_entry fresh entry l h ≡ ok (l', g))
      × IsList g l' (xs ++ added fresh entry xs ∷ [])
      × (l'.current ≡ l.current)
unfolding list_add_entry
list_add_entry-append fresh entry l h [] ne unused is = (
  record l { first = fresh; last = fresh; entries = u32 (l.entries + 1) },
  write h fresh (some (record { previous = null; next = null; entry = entry })),
  ground (arith, is.first),
  record {
    chain = (ne, write_self h fresh _, tt, tt);
    first = refl;
    last = refl;
    entries = omega (arith, is.entries);
  },
  refl,
)
list_add_entry-append fresh entry l h (c ∷ xs) ne unused is =
    let d : Cell = record { at = fresh; previous = last_of c.at xs; entry = entry } in
    let made : Heap = write h fresh (some (node_of d null)) in
    let out = Avoids-free h fresh (c ∷ xs) unused is.chain in
    let (n, loads, chain) =
      Chain-link made d ne (write_self h fresh _) c xs (Chain-write h fresh _ (c ∷ xs) out is.chain)
        out in
    (
      record l { last = fresh; entries = u32 (l.entries + 1) },
      write made (last_of c.at xs) (some (record n { next = fresh })),
      ground (arith, ne, is.first, is.last, is.chain.0, loads),
      record {
        chain = chain;
        first = is.first;
        last = sym (last_of-append c.at xs d []);
        entries = omega (arith, is.entries, length-append xs (d ∷ []));
      },
      refl,
    )
