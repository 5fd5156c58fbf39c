-- ===== src/Ring.antt =====
-- shared/ring.c and shared/ring.h: the producer and consumer positions of a circular buffer.
use speutils_debs.Base.{
  ℕ, ◌+◌, Bool, true, false, not, Option, none, some, leb, ◌==◌, if◌then◌else◌, u32, Outcome, ok,
  fault,
}
pub mod Count
pub mod Pending
pub mod Exercise
mod Examples

-- struct ring_context_s: three uint32_t.
pub record RingContext : Type 0 where
  pub front : ℕ
  pub back : ℕ
  pub size : ℕ

-- ringInitContext. `memory` says whether malloc returned a block: its result is not tested, so
-- without one the first assignment is through a null pointer. `size` is an int, given by its 32
-- bits, which are what the field receives.
unfoldable pub init_context : (memory : Bool) → ℕ → Outcome (Option RingContext)
init_context memory size =
    if u32 size == 0
    then ok none
    else if memory
    then ok (some (record { front = 0; back = 0; size = u32 size }))
    else fault

-- ringHasFree. `fplus` is an int and is compared as a uint32_t, so that the addition wraps.
unfoldable pub has_free : RingContext → Bool
has_free ctx =
    let fplus = u32 (ctx.front + 1) in
    let next = if leb ctx.size fplus then 0 else fplus in not (next == ctx.back)

-- ringHasRemaining
unfoldable pub has_remaining : RingContext → Bool
has_remaining ctx = if ctx.front == ctx.back then false else true

-- ringIncFront
unfoldable pub inc_front : RingContext → RingContext
inc_front ctx =
    let front = u32 (ctx.front + 1) in
    record ctx { front = if leb ctx.size front then 0 else front }

-- ringIncBack
unfoldable pub inc_back : RingContext → RingContext
inc_back ctx =
    let back = u32 (ctx.back + 1) in record ctx { back = if leb ctx.size back then 0 else back }

-- ringGetFront and ringGetBack
unfoldable pub get_front : RingContext → ℕ
get_front ctx = ctx.front

unfoldable pub get_back : RingContext → ℕ
get_back ctx = ctx.back

-- ringReset: the assignments; the function has no return statement, so no result is modelled.
unfoldable pub reset : RingContext → RingContext
reset ctx = record ctx { front = 0; back = 0 }
