-- ===== src/Base/Tests.antt =====
-- Boolean tests on the native numbers, the conditional, and 32-bit words.
use Prim.Native.Nat.{ℕ, zero, suc, ◌≤◌, ◌<◌, ◌%◌, ◌^◌, compare, Ordering}
use mathlib.Core.Path.{◌≡◌, refl}
use mathlib.Core.Logic.{◌↔◌, ◌⊎◌, inl, inr}
use mathlib.Core.Bool.{Bool, true, false}
use mathlib.Core.Option.{Option, none, some}
use native.Mathlib.Omega.{arith}

abbrev pub ltb : ℕ → ℕ → Bool
ltb a b = elim (compare a b) [ Ordering.lt ↦ true | _ ↦ false ]

abbrev pub leb : ℕ → ℕ → Bool
leb a b = elim (compare a b) [ Ordering.gt ↦ false | _ ↦ true ]

infix 50 ◌==◌
abbrev pub ◌==◌ : ℕ → ℕ → Bool
a == b = elim (compare a b) [ Ordering.eq ↦ true | _ ↦ false ]

infix 1 if◌then◌else◌
abbrev pub if◌then◌else◌ {ℓ} : {A : Type ℓ} → Bool → A → A → A
if true then x else y = x
if false then x else y = y

-- The conversion of a value to uint32_t.
abbrev pub u32 : ℕ → ℕ
u32 n = n % 2 ^ 32

pub Bool-cases : (b : Bool) → (b ≡ true) ⊎ (b ≡ false)
Bool-cases true = inl refl
Bool-cases false = inr refl

pub ==_iff : (a b : ℕ) → ((a == b) ≡ true) ↔ (a ≡ b)
==_iff a b = ground arith

pub Option-cases {ℓ} : {A : Type ℓ} (o : Option A) → (o ≡ none) ⊎ ((a : A) × (o ≡ some a))
Option-cases none = inl refl
Option-cases (some a) = inr (a, refl)

-- The least number at which a test holds, given one at which it does.
pub Bool-least :
    (f : ℕ → Bool) (n : ℕ)
    → f n ≡ true
    → (k : ℕ) × (k ≤ n) × (f k ≡ true) × ((j : ℕ) → j < k → f j ≡ false)
Bool-least f zero e = (zero, omega arith, e, λ j h. absurd (omega arith))
Bool-least f (suc n) e = elim (Bool-cases (f 0)) [
  | inl now ↦ (0, omega arith, now, λ j h. absurd (omega arith))
  | inr later ↦
      let (k, le, holds, before) = Bool-least (λ j. f (suc j)) n e in
      (suc k, omega arith, holds, λ j h. from_zero later before j h)
]
  where
    from_zero :
        {k : ℕ}
        → f 0 ≡ false
        → ((j : ℕ) → j < k → f (suc j) ≡ false)
        → (j : ℕ) → j < suc k
        → f j ≡ false
    from_zero now before zero h = now
    from_zero now before (suc j) h = before j (omega arith)
