-- ===== src/LinkedList/Unlink.antt =====
-- The part of listRemoveEntry behind its loop: the heap and the cells that it leaves.
use speutils_debs.Base.{
  ℕ, ◌+◌, ◌-◌, ◌^◌, ◌≡◌, ◌≢◌, refl, sym, ◌∙◌, none, some, [], ◌∷◌, ◌++◌, arith, ◌==◌, if◌then◌else◌,
  length, length-append, u32, ok, fault, ◌>>=◌,
}
use speutils_debs.LinkedList.Memory.{
  Ptr, null, Node, Heap, write, load, load-ok, load-dangling, write_self, write_ne,
}
use speutils_debs.LinkedList.Chain.{
  Cell, Cells, ptr_of, last_of, node_of, Avoids, Chain, Avoids-append, Avoids-left, Avoids-right,
  last_of-ne, last_of-append, Chain-write, Chain-right,
}
use speutils_debs.LinkedList.{LinkedList, skip_current, unlink}
use speutils_debs.LinkedList.Add.{IsList}

-- The cells without `c`, after the write of the `next` before it and the release of `c`.
Chain-relink :
    (h : Heap) (w : Cell) (ws : Cells) (c : Cell) (ys : Cells)
    → Chain h ((w ∷ ws) ++ c ∷ ys)
    → (n : Node) × (load h (last_of w.at ws) ≡ ok n)
      × (last_of w.at ws ≢ c.at)
      × (last_of w.at ws ≢ null)
      × Chain
          (write (write h (last_of w.at ws) (some (record n { next = ptr_of ys }))) c.at none)
          ((w ∷ ws) ++ ys)
Chain-relink h w [] c ys (ne, holds, out, (c_ne, c_holds, c_out, rest)) = (
  node_of w c.at,
  load-ok h w.at ne holds,
  out.0,
  ne,
  (
    ne,
    write_ne _ c.at w.at none out.0 ∙ write_self h w.at _,
    out.1,
    Chain-write _ c.at none ys c_out (Chain-write h w.at _ ys out.1 rest),
  ),
)
Chain-relink h w (x ∷ ws) c ys (ne, holds, out, rest) =
    let (n, loads, apart, not_null, chain) = Chain-relink h x ws c ys rest in
    let behind = Avoids-right w.at (x ∷ ws) (c ∷ ys) out in
    let before = Avoids-left w.at (x ∷ ws) (c ∷ ys) out in
    (
      n,
      loads,
      apart,
      not_null,
      (
        ne,
        write_ne _ c.at w.at none behind.0
            ∙ write_ne h _ w.at _
                (λ q. last_of-ne w.at x.at ws (λ r. before.0 (sym r)) before.1 (sym q))
            ∙ holds,
        Avoids-append w.at (x ∷ ws) ys before behind.1,
        chain,
      ),
    )

last_of-++ : (p : Ptr) (xs ys : Cells) → last_of (last_of p xs) ys ≡ last_of p (xs ++ ys)
last_of-++ p [] ys = refl
last_of-++ p (x ∷ xs) ys = last_of-++ x.at xs ys

-- What `last` becomes when `c`, with `ys` behind it and `p` before it, is unlinked.
last-unlink :
    (p : Ptr) (c : Cell) (ys : Cells)
    → Avoids c.at ys
    → (if c.at == last_of c.at ys then p else last_of c.at ys) ≡ last_of p ys
last-unlink p c [] a = ground arith
last-unlink p c (y ∷ ys) a = ground (arith, last_of-ne c.at y.at ys (λ q. a.0 (sym q)) a.1)

skip_current-null :
    (h : Heap) (l : LinkedList) {n : Node}
    → load h l.current ≡ ok n
    → n.previous ≡ null
    → skip_current l h ≡ ok h
unfolding skip_current
skip_current-null h l loads e = ground arith

pub skip_current-write :
    (h : Heap) (l : LinkedList) (q : Ptr) {n p : Node}
    → load h l.current ≡ ok n
    → n.previous ≡ q
    → q ≢ null
    → load h q ≡ ok p
    → skip_current l h ≡ ok (write h q (some (record p { next = n.next })))
unfolding skip_current
skip_current-write h l q {n} loads e ne before = rw (loads, ◌>>=◌) (ground (arith, e, before))

unlink_lem :
    (h g : Heap) (l : LinkedList) {n : Node} {last first : Ptr} {entries : ℕ}
    → skip_current l h ≡ ok g
    → load g l.current ≡ ok n
    → (if l.current == l.last then n.previous else l.last) ≡ last
    → (if l.current == l.first then n.next else l.first) ≡ first
    → u32 (l.entries + 2 ^ 32 - 1) ≡ entries
    → unlink l h
      ≡ ok (
        record { first = first; last = last; current = first; entries = entries },
        write g l.current none,
      )
unfolding unlink
unlink_lem h g l skips loads e_last e_first e_entries =
    rw (skips, loads) (simp (e_last, e_first, e_entries))

module _ (h : Heap) (l : LinkedList) (c : Cell) (ys : Cells) where
  abbrev pub at_c : LinkedList
  at_c = record l { current = c.at }

  abbrev pub Unlinked : Cells → Type 0
  Unlinked xs =
      (l' : LinkedList) × (g : Heap) × (unlink at_c h ≡ ok (l', g))
      × IsList g l' (xs ++ ys)
      × (g c.at ≡ none)
      × (l'.current ≡ l'.first)

  unlink-first : IsList h l (c ∷ ys) → c.previous ≡ null → Unlinked []
  unlink-first is prev =
      let loads = load-ok h c.at is.chain.0 is.chain.1 in
      (
        record {
          first = ptr_of ys;
          last = last_of null ys;
          current = ptr_of ys;
          entries = u32 (length ys);
        },
        write h c.at none,
        unlink_lem h h at_c (skip_current-null h at_c loads prev) loads
            (ground (arith, last-unlink null c ys is.chain.2, is.last)) (ground (arith, is.first))
            (omega (arith, is.entries)),
        record {
          chain = Chain-write h c.at none ys is.chain.2 is.chain.3;
          first = refl;
          last = refl;
          entries = refl;
        },
        write_self h c.at none,
        refl,
      )

  unlink-inner :
      (w : Cell) (ws : Cells)
      → IsList h l ((w ∷ ws) ++ c ∷ ys)
      → c.previous ≡ last_of w.at ws
      → Unlinked (w ∷ ws)
  unlink-inner w ws is prev =
      let (n, loads, apart, not_null, chain) = Chain-relink h w ws c ys is.chain in
      let from_c = Chain-right h (w ∷ ws) (c ∷ ys) is.chain in
      let g : Heap = write h (last_of w.at ws) (some (record n { next = ptr_of ys })) in
      let skips : skip_current at_c h ≡ ok g =
        skip_current-write h at_c (last_of w.at ws) (load-ok h c.at from_c.0 from_c.1) prev not_null
          loads in
      (
        record {
          first = w.at;
          last = last_of (last_of w.at ws) ys;
          current = w.at;
          entries = u32 (length ((w ∷ ws) ++ ys));
        },
        write g c.at none,
        unlink_lem h g at_c skips
            (load-ok g c.at from_c.0
              (write_ne h (last_of w.at ws) c.at _ (λ q. apart (sym q)) ∙ from_c.1))
            (ground (
              arith,
              last-unlink (last_of w.at ws) c ys from_c.2,
              last_of-append w.at ws c ys,
              is.last,
            ))
            (ground (arith, (Avoids-right w.at ws (c ∷ ys) is.chain.2).0, is.first))
            (omega (
              arith,
              is.entries,
              length-append {0} (w ∷ ws) (c ∷ ys),
              length-append {0} (w ∷ ws) ys,
            )),
        record { chain = chain; first = refl; last = last_of-++ w.at ws ys; entries = refl },
        write_self _ c.at none,
        refl,
      )

  pub unlink-any :
      (xs : Cells) → IsList h l (xs ++ c ∷ ys) → c.previous ≡ last_of null xs → Unlinked xs
  unlink-any [] = unlink-first
  unlink-any (w ∷ ws) = unlink-inner w ws

-- The unlinked cell's neighbour is read where `previous` points.
pub unlink-dangling :
    (g : Heap) (l : LinkedList) (d : Cell) (ys : Cells)
    → Chain g (d ∷ ys)
    → g d.previous ≡ none
    → d.previous ≢ null
    → unlink (record l { current = d.at }) g ≡ fault
unfolding unlink skip_current
unlink-dangling g l d ys ch gone ne =
    ground (arith, load-ok g d.at ch.0 ch.1, load-dangling g d.previous gone)
