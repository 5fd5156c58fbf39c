-- ===== src/Base/Outcomes.antt =====
-- What a C function does: it returns, it commits undefined behaviour (a null or dangling pointer,
-- an index out of range), the fuel given to one of its loops is used up, or it ends its process or
-- thread with a status.
use Prim.Native.Nat.{ℕ}
use mathlib.Core.Path.{◌≡◌, refl, ap, ◌∙◌}
use mathlib.Core.Option.{Option, none, some}

pub data Outcome {ℓ} (A : Type ℓ) : Type ℓ where
  ok : A → Outcome A
  fault : Outcome A
  out_of_fuel : Outcome A
  exited : ℕ → Outcome A

infixl 5 ◌>>=◌ ◌>>◌
abbrev pub ◌>>=◌ {ℓ κ} : {A : Type ℓ} {B : Type κ} → Outcome A → (A → Outcome B) → Outcome B
ok a >>= f = f a
fault >>= f = fault
out_of_fuel >>= f = out_of_fuel
exited status >>= f = exited status

abbrev pub ◌>>◌ {ℓ κ} : {A : Type ℓ} {B : Type κ} → Outcome A → Outcome B → Outcome B
m >> k = m >>= λ _. k

-- `*p`, for a pointer that may be null and an index that may be out of range.
abbrev pub deref {ℓ} : {A : Type ℓ} → Option A → Outcome A
deref none = fault
deref (some a) = ok a

pub >>=_assoc {ℓ κ μ} :
    {A : Type ℓ} {B : Type κ} {C : Type μ} (m : Outcome A) (f : A → Outcome B) (g : B → Outcome C)
    → (m >>= λ a. f a >>= g) ≡ (m >>= f >>= g)
>>=_assoc (ok a) f g = refl
>>=_assoc fault f g = refl
>>=_assoc out_of_fuel f g = refl
>>=_assoc (exited status) f g = refl

-- A chain that returns has parts that return.
pub >>=_inverse {ℓ κ} :
    {A : Type ℓ} {B : Type κ} (m : Outcome A) (f : A → Outcome B) {b : B}
    → (m >>= f) ≡ ok b
    → (a : A) × (m ≡ ok a) × (f a ≡ ok b)
>>=_inverse (ok a) f e = (a, refl, e)
>>=_inverse fault f e = absurd (cc)
>>=_inverse out_of_fuel f e = absurd (cc)
>>=_inverse (exited status) f e = absurd (cc)

-- A chain whose last part is set apart.
pub >>=_ok {ℓ κ} :
    {A : Type ℓ} {B : Type κ} (m : Outcome A) (k : A → Outcome B) → (m >>= k) ≡ (m >>= ok >>= k)
>>=_ok (ok a) k = refl
>>=_ok fault k = refl
>>=_ok out_of_fuel k = refl
>>=_ok (exited status) k = refl

pub >>=_under {ℓ κ μ} :
    {A : Type ℓ} {B : Type κ} {C : Type μ} (m : Outcome A) (f : A → Outcome B) (k : B → Outcome C)
    {g : A → Outcome C}
    → ((a : A) → g a ≡ (f a >>= k))
    → (m >>= g) ≡ (m >>= f >>= k)
>>=_under m f k e = ap (λ h. m >>= h) (λ i a. e a i) ∙ >>=_assoc m f k
