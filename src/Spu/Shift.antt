-- ===== src/Spu/Shift.antt =====
-- One round of the pipeline on tasks that add: what becomes of the four entries.
use speutils_debs.Base.{
  ℕ, ◌+◌, ◌-◌, ◌^◌, ◌<◌, ◌≡◌, ◌≢◌, refl, sym, ap, ◌∙◌, true, some, List, arith, if◌then◌else◌,
  get_elem?, length, set, u32, ok, get_elem?-set_ne, get_elem?-set_self, length-set,
}
use speutils_debs.Messages
use speutils_debs.Spu.State.{PipeEntry, Manager, View, increment}
use speutils_debs.Spu.Stages.{context, set_entry, stage1, later_stages, pass}
use speutils_debs.Spu.Retire.{At, IsAdd, worked, idle, stage2-add, stage3-add, stage4-retired}

-- The rest of a round, behind a first stage that has left `m`.
unfoldable pub finished : Manager → PipeEntry → PipeEntry → ℕ → Manager
unfolding context
finished m e2 e3 result = record m {
  pipe = set (set m.pipe (context m 2) (worked e2 result)) (context m 3) (idle e3);
  out_back = if e3.active then increment m.out_back m.max_entries else m.out_back;
  acks = if e3.active then set m.acks e3.entry e3.ack else m.acks;
  cycle = u32 (m.cycle + 2 ^ 32 - 1);
}

module _ (fuel : ℕ) (v : View) (one : Manager) (e1 e2 e3 : PipeEntry) (result : ℕ) where
  pub later_stages-finished :
      v.res < 2 ^ 32
      → At one 1 e1
      → At one 2 e2
      → At one 3 e3
      → (e1.active ≡ true → get_elem? e1.task 0 ≡ some Messages.add)
      → (e2.active ≡ true → IsAdd v.res e2.task result)
      → (e3.active ≡ true → e3.entry < length one.acks)
      → later_stages fuel v one ≡ ok (finished one e2 e3 result)
  unfolding later_stages finished set_entry context
  later_stages-finished small at1 at2 at3 add1 add2 room =
      let three = record one { pipe = set one.pipe (context one 2) (worked e2 result) } in
      let apart : context one 2 ≢ context one 3 = omega arith in
      let at3' : At three 3 e3 =
        get_elem?-set_ne one.pipe (context one 2) (context one 3) (worked e2 result) apart ∙ at3 in
      rw (
        stage2-add one e1 at1 add1,
        stage3-add fuel v one e2 result small at2 add2,
        stage4-retired three e3 at3' room,
      )

  pub pass-finished :
      (m : Manager)
      → v.res < 2 ^ 32
      → stage1 v m ≡ ok one
      → At one 1 e1
      → At one 2 e2
      → At one 3 e3
      → (e1.active ≡ true → get_elem? e1.task 0 ≡ some Messages.add)
      → (e2.active ≡ true → IsAdd v.res e2.task result)
      → (e3.active ≡ true → e3.entry < length one.acks)
      → pass fuel v m ≡ ok (finished one e2 e3 result)
  unfolding pass
  pass-finished m small first at1 at2 at3 add1 add2 room =
      rw first (later_stages-finished small at1 at2 at3 add1 add2 room)

-- The stages meet the entries in turn, as the cycle counts down.
context-turn :
    (m g : Manager)
    → m.cycle < 2 ^ 32
    → g.cycle ≡ u32 (m.cycle + 2 ^ 32 - 1)
    → (context g 0 ≡ context m 3)
      × (context g 1 ≡ context m 0)
      × (context g 2 ≡ context m 1)
      × (context g 3 ≡ context m 2)
unfolding context
context-turn m g small e = omega arith

pub context-lt : (m : Manager) (k : ℕ) → context m k < 4
unfolding context
context-lt m k = omega arith

pub context-ne :
    (m : Manager)
    → (context m 2 ≢ context m 3)
      × (context m 2 ≢ context m 0)
      × (context m 2 ≢ context m 1)
      × (context m 3 ≢ context m 0)
      × (context m 3 ≢ context m 1)
unfolding context
context-ne m = omega arith

pub set_twice-far {ℓ} :
    {A : Type ℓ} (xs : List A) (i j k : ℕ) (x y : A)
    → j ≢ i
    → k ≢ i
    → get_elem? (set (set xs j x) k y) i ≡ get_elem? xs i
set_twice-far xs i j k x y ne ne' =
    get_elem?-set_ne (set xs j x) k i y ne' ∙ get_elem?-set_ne xs j i x ne

-- Where the entries stand after the round.
module _ (m : Manager) (e1 e2 e3 f0 : PipeEntry) (result : ℕ) where
  pub finished-At :
      m.cycle < 2 ^ 32
      → length m.pipe ≡ 4
      → At m 0 f0
      → At m 1 e1
      → let g = finished m e2 e3 result in
        (At g 0 (idle e3))
        × (At g 1 f0)
        × (At g 2 e1)
        × (At g 3 (worked e2 result))
        × (length g.pipe ≡ 4)
        × (g.cycle < 2 ^ 32)
  unfolding finished
  finished-At small four at0 at1 =
      let g = finished m e2 e3 result in
      let pipe = m.pipe in
      let (to3, to0, to1, to2) = context-turn m g small refl in
      let (n23, n20, n21, n30, n31) = context-ne m in
      let in2 : context m 2 < length pipe = omega (arith, context-lt m 2) in
      let in3 : context m 3 < length (set pipe (context m 2) (worked e2 result)) =
        omega (arith, context-lt m 3, length-set pipe (context m 2) (worked e2 result)) in
      (
        ap (get_elem? g.pipe) to3
            ∙ get_elem?-set_self (set pipe (context m 2) (worked e2 result)) (context m 3) (idle e3)
                in3,
        ap (get_elem? g.pipe) to0
            ∙ set_twice-far pipe (context m 0) (context m 2) (context m 3) (worked e2 result)
                (idle e3) n20 n30
            ∙ at0,
        ap (get_elem? g.pipe) to1
            ∙ set_twice-far pipe (context m 1) (context m 2) (context m 3) (worked e2 result)
                (idle e3) n21 n31
            ∙ at1,
        ap (get_elem? g.pipe) to2
            ∙ get_elem?-set_ne (set pipe (context m 2) (worked e2 result)) (context m 3)
                (context m 2) (idle e3) (λ q. n23 (sym q))
            ∙ get_elem?-set_self pipe (context m 2) (worked e2 result) in2,
        length-set (set pipe (context m 2) (worked e2 result)) (context m 3) (idle e3)
            ∙ length-set pipe (context m 2) (worked e2 result)
            ∙ four,
        omega arith,
      )
