-- ===== src/Ring/Examples.antt =====
-- ring.c: a ring of four slots that has wrapped around.
use speutils_debs.Base.{◌≡◌, refl, true, false, none, some, [], ◌∷◌, ◌++◌, arith, ok}
use speutils_debs.Ring.{
  RingContext, init_context, has_free, has_remaining, inc_front, inc_back, get_front, get_back,
}
use speutils_debs.Ring.Count.{IsValid}
use speutils_debs.Ring.Pending.{pending, Avoids, window, inc_front-pending, inc_back-pending}

-- The slots 3 and 0 are occupied.
abbrev wrapped : RingContext
wrapped = record { front = 1; back = 3; size = 4 }

-- The slots 3, 0 and 1 are occupied.
abbrev full : RingContext
full = record { front = 2; back = 3; size = 4 }

wrapped-IsValid : IsValid wrapped
wrapped-IsValid = record { front_in = omega arith; back_in = omega arith; word = omega arith }

full-IsValid : IsValid full
full-IsValid = record { front_in = omega arith; back_in = omega arith; word = omega arith }

wrapped-free : has_free wrapped ≡ true
unfolding has_free
wrapped-free = refl

wrapped-remaining : has_remaining wrapped ≡ true
unfolding has_remaining
wrapped-remaining = refl

full-not_free : has_free full ≡ false
unfolding has_free
full-not_free = refl

wrapped-pending : pending wrapped ≡ 3 ∷ 0 ∷ []
unfolding window
wrapped-pending = refl

no_slots : init_context true 0 ≡ ok none
unfolding init_context
no_slots = refl

four_slots : init_context true 4 ≡ ok (some (record { front = 0; back = 0; size = 4 }))
unfolding init_context
four_slots = refl

inc_front-pending_example :
    Avoids (get_front wrapped) (pending wrapped)
    × (pending (inc_front wrapped) ≡ pending wrapped ++ get_front wrapped ∷ [])
inc_front-pending_example = inc_front-pending wrapped-IsValid wrapped-free

inc_back-pending_example : pending wrapped ≡ get_back wrapped ∷ pending (inc_back wrapped)
inc_back-pending_example = inc_back-pending wrapped-IsValid wrapped-remaining
