-- ===== src/Ring/Count.antt =====
-- ring.c: how many slots lie between the back and the front, and how each operation changes that.
use speutils_debs.Base.{
  ℕ, ◌+◌, ◌-◌, ◌<◌, ◌^◌, ◌≡◌, ◌↔◌, Bool, true, false, some, arith, leb, if◌then◌else◌, u32, ok,
}
use speutils_debs.Ring.{
  RingContext, init_context, has_free, has_remaining, inc_front, inc_back, reset,
}

-- Both positions lie in the buffer.
pub record IsValid (r : RingContext) : Type 0 where
  pub front_in : r.front < r.size
  pub back_in : r.back < r.size
  pub word : r.size < 2 ^ 32

-- The occupied slots, which the code never computes.
abbrev pub used : RingContext → ℕ
used r = if leb r.back r.front then r.front - r.back else r.front + r.size - r.back

pub used-lt : {r : RingContext} → IsValid r → used r < r.size
used-lt v = ground arith

-- A context that ringInitContext returns is valid, and its buffer is empty.
pub init_context-IsValid :
    (size : ℕ) (memory : Bool) {r : RingContext}
    → init_context memory size ≡ ok (some r)
    → IsValid r × (used r ≡ 0) × (r.size ≡ u32 size)
unfolding init_context
init_context-IsValid size memory e = ground arith

-- On a valid ring, ringHasFree answers 1 exactly when the occupied slots and one more are fewer
-- than the size, and ringHasRemaining answers 1 exactly when some slot is occupied.
pub has_free-has_remaining_iff :
    {r : RingContext}
    → IsValid r
    → ((has_free r ≡ true) ↔ (used r + 1 < r.size)) × ((has_remaining r ≡ true) ↔ (0 < used r))
unfolding has_free has_remaining
has_free-has_remaining_iff v = ground arith

-- On a valid ring that has a free slot, ringIncFront keeps the ring valid, occupies one more slot
-- and leaves the back and the size alone.
pub inc_front-used :
    {r : RingContext}
    → IsValid r
    → has_free r ≡ true
    → IsValid (inc_front r)
      × (used (inc_front r) ≡ used r + 1)
      × ((inc_front r).back ≡ r.back)
      × ((inc_front r).size ≡ r.size)
unfolding has_free inc_front
inc_front-used v h = ground arith

-- On a valid ring that is not empty, ringIncBack keeps the ring valid, gives one slot back and
-- leaves the front and the size alone.
pub inc_back-used :
    {r : RingContext}
    → IsValid r
    → has_remaining r ≡ true
    → IsValid (inc_back r)
      × (used (inc_back r) + 1 ≡ used r)
      × ((inc_back r).front ≡ r.front)
      × ((inc_back r).size ≡ r.size)
unfolding has_remaining inc_back
inc_back-used v h = ground arith

-- On a valid ring without a free slot, ringIncFront makes the ring look empty: the slots that were
-- occupied are lost to the count.
pub inc_front-overrun :
    {r : RingContext}
    → IsValid r
    → has_free r ≡ false
    → (used r + 1 ≡ r.size) × (used (inc_front r) ≡ 0) × (has_remaining (inc_front r) ≡ false)
unfolding has_free inc_front has_remaining
inc_front-overrun v h = ground arith

pub inc_front-IsValid : {r : RingContext} → IsValid r → IsValid (inc_front r)
unfolding inc_front
inc_front-IsValid v = ground arith

pub inc_back-IsValid : {r : RingContext} → IsValid r → IsValid (inc_back r)
unfolding inc_back
inc_back-IsValid v = ground arith

-- A step of the back never takes a free slot away, if the ring is not empty.
pub inc_back-has_free :
    {r : RingContext} → IsValid r → has_remaining r ≡ true → has_free (inc_back r) ≡ true
unfolding has_remaining has_free inc_back
inc_back-has_free v h = ground arith

pub reset-IsValid : {r : RingContext} → IsValid r → IsValid (reset r) × (used (reset r) ≡ 0)
unfolding reset
reset-IsValid v = ground arith

pub has_remaining-used : {r : RingContext} → IsValid r → has_remaining r ≡ false → used r ≡ 0
unfolding has_remaining
has_remaining-used v h = ground arith

-- One round of the rolling loop on a ring without a free slot.
pub round_lem :
    {r : RingContext}
    → IsValid r
    → used r + 1 ≡ r.size
    → (used (inc_front (inc_back r)) + 1 ≡ r.size) × ((inc_front (inc_back r)).size ≡ r.size)
unfolding inc_front inc_back
round_lem v h = ground arith

pub used-zero : {r : RingContext} → IsValid r → used r ≡ 0 → r.front ≡ r.back
used-zero v h = ground arith
