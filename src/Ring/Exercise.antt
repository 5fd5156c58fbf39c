-- ===== src/Ring/Exercise.antt =====
-- tst/ring_test.c: fill the ring, roll it, empty it. The loops run on fuel.
use speutils_debs.Base.{
  ℕ, zero, suc, ◌+◌, ◌<◌, ◌≡◌, ◌≢◌, refl, Bool, true, sym, ◌∙◌, inl, inr, some, arith,
  if◌then◌else◌, Outcome, ok, out_of_fuel, deref, ◌>>=◌, Bool-cases, u32,
}
use speutils_debs.Ring.{RingContext, init_context, has_free, has_remaining, inc_front, inc_back}
use speutils_debs.Ring.Count.{
  IsValid, used, inc_front-used, inc_back-used, inc_front-IsValid, inc_back-IsValid,
  inc_front-overrun, used-lt, has_remaining-used, used-zero, round_lem,
}

-- while(ringHasFree(context)) ringIncFront(context);
pub fill : ℕ → RingContext → Outcome RingContext
fill zero context = out_of_fuel
fill (suc fuel) context =
    let rest = fill fuel (inc_front context) in if has_free context then rest else ok context

-- for (i = 0 ; i < 100; i++) { ringIncBack(context); ringIncFront(context); }
pub roll : ℕ → RingContext → RingContext
roll zero context = context
roll (suc rounds) context = roll rounds (inc_front (inc_back context))

-- while(ringHasRemaining(context)) ringIncBack(context);
pub drain : ℕ → RingContext → Outcome RingContext
drain zero context = out_of_fuel
drain (suc fuel) context =
    let rest = drain fuel (inc_back context) in if has_remaining context then rest else ok context

-- The whole program, for any size and number of rolls; main has 100 for both.
pub exercise : (memory : Bool) (size rounds fuel : ℕ) → Outcome RingContext
unfolding fill roll drain
exercise memory size rounds fuel = do
  made ← init_context memory size
  context ← deref made
  full ← fill fuel context
  drain fuel (roll rounds full)

fill_lem :
    (fuel : ℕ) (r : RingContext)
    → IsValid r
    → r.size < used r + fuel + 1
    → (s : RingContext) × (fill fuel r ≡ ok s)
      × IsValid s
      × (used s + 1 ≡ r.size)
      × (s.size ≡ r.size)
unfolding fill
fill_lem zero r v h = absurd (omega (arith, used-lt v))
fill_lem (suc fuel) r v h = elim (Bool-cases (has_free r)) [
  | inl free ↦
      let (v', more, _, same) = inc_front-used v free in
      let (s, runs, valid, full, size) = fill_lem fuel (inc_front r) v' (omega arith) in
      (s, rw free runs, valid, omega arith, same' size same)
  | inr full ↦ (r, rw full, v, omega (arith, (inc_front-overrun v full).0), refl)
]
  where
    same' : {a b c : ℕ} → a ≡ b → b ≡ c → a ≡ c
    same' p q = p ∙ q

drain_lem :
    (fuel : ℕ) (r : RingContext)
    → IsValid r
    → used r < fuel
    → (s : RingContext) × (drain fuel r ≡ ok s) × IsValid s × (used s ≡ 0) × (s.front ≡ r.front)
unfolding drain
drain_lem zero r v h = absurd (omega arith)
drain_lem (suc fuel) r v h = elim (Bool-cases (has_remaining r)) [
  | inl more ↦
      let (v', less, same, _) = inc_back-used v more in
      let (s, runs, valid, empty, front) = drain_lem fuel (inc_back r) v' (omega arith) in
      (s, rw more runs, valid, empty, front ∙ same)
  | inr done ↦ (r, rw done, v, has_remaining-used v done, refl)
]

-- Rolling a ring without a free slot leaves it without one.
roll_lem :
    (rounds : ℕ) (r : RingContext)
    → IsValid r
    → used r + 1 ≡ r.size
    → IsValid (roll rounds r)
      × (used (roll rounds r) + 1 ≡ r.size)
      × ((roll rounds r).size ≡ r.size)
unfolding roll
roll_lem zero r v h = (v, h, refl)
roll_lem (suc rounds) r v h =
    let v' = inc_front-IsValid (inc_back-IsValid v) in
    let (full, size) = round_lem v h in
    let (valid, used', size') = roll_lem rounds (inc_front (inc_back r)) v' (full ∙ sym size) in
    (valid, used' ∙ size, size' ∙ size)

-- For every size but 0 and every number of rolls, the program that fills a new ring, rolls it and
-- empties it ends, with as much fuel as the size and one more for each loop, and it ends with an
-- empty ring whose front and back are the same position.
pub exercise-empty :
    (size rounds : ℕ)
    → u32 size ≢ 0
    → (s : RingContext) × (exercise true size rounds (u32 size + 1) ≡ ok s)
      × (used s ≡ 0)
      × (s.front ≡ s.back)
unfolding exercise
exercise-empty size rounds h =
    let (full, fills, v, at_end, size_full) = fill_lem (u32 size + 1) fresh valid (omega arith) in
    let (v', rolled, size') = roll_lem rounds full v (omega arith) in
    let (s, drains, v_rolled, none_left, same) =
      drain_lem (u32 size + 1) (roll rounds full) v' (omega arith) in
    (s, rw (made, fills, drains), none_left, used-zero v_rolled none_left)
  where
    fresh : RingContext
    fresh = record { front = 0; back = 0; size = u32 size }

    made : init_context true size ≡ ok (some fresh)
    made = unfold init_context in ground arith

    valid : IsValid fresh
    valid = ground arith
