-- ===== src/System/Place.antt =====
-- The slots by the number of the task: place 0 is the last slot of the queue, and every number stands
-- for the slot behind the one before it.
use speutils_debs.Base.{ℕ, zero, suc, ◌+◌, ◌-◌, ◌≤◌, ◌<◌, ◌≡◌, ◌≢◌, refl, sym, ap, ◌∙◌, arith}
use speutils_debs.Ring.Pending.{next, wrap}

unfoldable pub place : ℕ → ℕ → ℕ
place size zero = size - 1
place size (suc n) = next size (place size n)

module _ (size : ℕ) (some_slot : 0 < size) where
  pub place-lt : (n : ℕ) → place size n < size
  unfolding place
  place-lt zero = omega arith
  place-lt (suc n) = let below = place-lt n in ground arith

  pub place-suc : (n : ℕ) → place size (suc n) ≡ next size (place size n)
  unfolding place
  place-suc n = refl

  pub place-add : (n k : ℕ) → k ≤ size → place size (n + k) ≡ wrap size (place size n + k)
  place-add n zero le =
      let below = place-lt n in
      let here : n + 0 ≡ n = omega arith in ap (place size) here ∙ ground arith
  place-add n (suc k) le =
      let below = place-lt n in
      let here : n + suc k ≡ suc (n + k) = omega arith in
      ap (place size) here
      ∙ place-suc (n + k)
      ∙ ap (next size) (place-add n k (omega arith))
      ∙ ground arith

  pub place-period : (n : ℕ) → place size (n + size) ≡ place size n
  place-period n = let below = place-lt n in place-add n size (omega arith) ∙ ground arith

  -- Fewer than `size` steps apart, different numbers stand for different slots.
  pub place-injective : (i j : ℕ) → i ≤ j → j < i + size → place size i ≡ place size j → i ≡ j
  place-injective i j le near same =
      let below = place-lt i in
      let there : i + (j - i) ≡ j = omega arith in
      let wrapped = sym (place-add i (j - i) (omega arith)) ∙ ap (place size) there in
      ground (arith, same, wrapped)

  pub place-ne : (i j : ℕ) → i < j → j < i + size → place size i ≢ place size j
  place-ne i j lt near same = let e = place-injective i j (omega arith) near same in omega arith
