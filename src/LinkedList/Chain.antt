-- ===== src/LinkedList/Chain.antt =====
-- What a list stands for: its cells in order, and when a heap holds them.
use speutils_debs.Base.{ℕ, ◌≡◌, ◌≢◌, refl, sym, ◌∙◌, Option, none, some, List, [], ◌∷◌, ◌++◌, arith}
use speutils_debs.LinkedList.Memory.{Ptr, null, Node, Heap, write, write_ne}

-- An entry with its address; `next` is given by the order.
pub record Cell : Type 0 where
  pub at : Ptr
  pub previous : Ptr
  pub entry : ℕ

abbrev pub Cells : Type 0
Cells = List Cell

abbrev pub ptr_of : Cells → Ptr
ptr_of [] = null
ptr_of (c ∷ xs) = c.at

-- The address of the last cell, or `p` where there is none.
abbrev pub last_of : Ptr → Cells → Ptr
last_of p [] = p
last_of p (c ∷ xs) = last_of c.at xs

abbrev pub node_of : Cell → Ptr → Node
node_of c q = record { previous = c.previous; next = q; entry = c.entry }

-- `p` is the address of none of the cells.
abbrev pub Avoids : Ptr → Cells → Type 0
Avoids p [] = Unit
Avoids p (c ∷ xs) = (p ≢ c.at) × Avoids p xs

-- The heap holds the distinct cells, each with the next one's address.
abbrev pub Chain : Heap → Cells → Type 0
Chain h [] = Unit
Chain h (c ∷ xs) =
    (c.at ≢ null) × (h c.at ≡ some (node_of c (ptr_of xs))) × Avoids c.at xs × Chain h xs

-- Every cell holds the address of the cell before it, and the first one holds `p`.
abbrev pub IsDouble : Ptr → Cells → Type 0
IsDouble p [] = Unit
IsDouble p (c ∷ xs) = (c.previous ≡ p) × IsDouble c.at xs

-- None of the cells holds the entry.
abbrev pub Lacks : ℕ → Cells → Type 0
Lacks e [] = Unit
Lacks e (c ∷ xs) = (c.entry ≢ e) × Lacks e xs

pub Avoids-append : (p : Ptr) (xs ys : Cells) → Avoids p xs → Avoids p ys → Avoids p (xs ++ ys)
Avoids-append p [] ys a b = b
Avoids-append p (x ∷ xs) ys a b = (a.0, Avoids-append p xs ys a.1 b)

pub Avoids-left : (p : Ptr) (xs ys : Cells) → Avoids p (xs ++ ys) → Avoids p xs
Avoids-left p [] ys a = tt
Avoids-left p (x ∷ xs) ys a = (a.0, Avoids-left p xs ys a.1)

pub Avoids-right : (p : Ptr) (xs ys : Cells) → Avoids p (xs ++ ys) → Avoids p ys
Avoids-right p [] ys a = a
Avoids-right p (x ∷ xs) ys a = Avoids-right p xs ys a.1

pub last_of-ne : (p q : Ptr) (xs : Cells) → q ≢ p → Avoids p xs → last_of q xs ≢ p
last_of-ne p q [] ne a = ne
last_of-ne p q (x ∷ xs) ne a = last_of-ne p x.at xs (λ e. a.0 (sym e)) a.1

pub last_of-append :
    (p : Ptr) (xs : Cells) (c : Cell) (ys : Cells) → last_of p (xs ++ c ∷ ys) ≡ last_of c.at ys
last_of-append p [] c ys = refl
last_of-append p (x ∷ xs) c ys = last_of-append x.at xs c ys

pub IsDouble-append :
    (p : Ptr) (xs : Cells) (d : Cell)
    → IsDouble p xs
    → d.previous ≡ last_of p xs
    → IsDouble p (xs ++ d ∷ [])
IsDouble-append p [] d dbl e = (e, tt)
IsDouble-append p (x ∷ xs) d dbl e = (dbl.0, IsDouble-append x.at xs d dbl.1 e)

pub IsDouble-at :
    (p : Ptr) (xs : Cells) (c : Cell) (ys : Cells)
    → IsDouble p (xs ++ c ∷ ys)
    → c.previous ≡ last_of p xs
IsDouble-at p [] c ys dbl = dbl.0
IsDouble-at p (x ∷ xs) c ys dbl = IsDouble-at x.at xs c ys dbl.1

pub IsDouble-next :
    (p : Ptr) (xs : Cells) (c d : Cell) (ys : Cells)
    → IsDouble p (xs ++ c ∷ d ∷ ys)
    → d.previous ≡ c.at
IsDouble-next p [] c d ys dbl = dbl.1.0
IsDouble-next p (x ∷ xs) c d ys dbl = IsDouble-next x.at xs c d ys dbl.1

module _ (h : Heap) where
  -- A write elsewhere leaves the cells alone.
  pub Chain-write :
      (p : Ptr) (c : Option Node) (xs : Cells) → Avoids p xs → Chain h xs → Chain (write h p c) xs
  Chain-write p c [] a ch = tt
  Chain-write p c (x ∷ xs) a (ne, holds, out, rest) =
      (ne, write_ne h p x.at c (λ e. a.0 (sym e)) ∙ holds, out, Chain-write p c xs a.1 rest)

  pub Avoids-free : (p : Ptr) (xs : Cells) → h p ≡ none → Chain h xs → Avoids p xs
  Avoids-free p [] e ch = tt
  Avoids-free p (x ∷ xs) e (ne, holds, out, rest) = (λ q. ground arith, Avoids-free p xs e rest)

  pub Chain-right : (xs ys : Cells) → Chain h (xs ++ ys) → Chain h ys
  Chain-right [] ys ch = ch
  Chain-right (x ∷ xs) ys ch = Chain-right xs ys ch.3

  pub Chain-head_ne :
      (c : Cell) (xs : Cells) → Chain h (c ∷ xs) → (c.at ≢ null) × (last_of c.at xs ≢ null)
  Chain-head_ne c [] ch = (ch.0, ch.0)
  Chain-head_ne c (x ∷ xs) ch = (ch.0, (Chain-head_ne x xs ch.3).1)
