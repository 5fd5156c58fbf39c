-- ===== src/Dma/Masks.antt =====
-- Masks of tags: which tags a mask has.
use speutils_debs.Base.{
  ℕ, zero, suc, ◌/◌, ◌%◌, ◌^◌, ◌<◌, ◌≤◌, ◌≡◌, refl, ap, ◌∙◌, Bool, false, arith, ◌==◌, u32,
}
use native.Mathlib.Nat.{pow-suc, pow-le-pow_right}
use speutils_debs.Dma.{bit_of}

-- Bit `tag` of the mask.
unfoldable pub in_mask : ℕ → ℕ → Bool
in_mask mask zero = mask % 2 == 1
in_mask mask (suc tag) = in_mask (mask / 2) tag

in_mask-zero : (tag : ℕ) → in_mask 0 tag ≡ false
unfolding in_mask
in_mask-zero zero = refl
in_mask-zero (suc tag) = in_mask-zero tag

in_mask-pow : (tag other : ℕ) → in_mask (2 ^ tag) other ≡ (tag == other)
unfolding in_mask
in_mask-pow zero zero = refl
in_mask-pow zero (suc other) = in_mask-zero other ∙ ground arith
in_mask-pow (suc tag) zero = ground (arith, pow-suc 2 tag)
in_mask-pow (suc tag) (suc other) =
    let half : 2 ^ suc tag / 2 ≡ 2 ^ tag = omega (arith, pow-suc 2 tag) in
    ap (λ m. in_mask m other) half ∙ in_mask-pow tag other ∙ ground arith

-- The mask 1<<tag has this tag and no other.
pub in_mask-bit_of : (tag other : ℕ) → tag < 32 → in_mask (bit_of tag) other ≡ (tag == other)
unfolding bit_of
in_mask-bit_of tag other lt =
    let small : 2 ^ tag ≤ 2 ^ 31 = pow-le-pow_right (omega arith) {j = 31} (omega (arith, lt)) in
    let whole : u32 (2 ^ tag) ≡ 2 ^ tag = omega (arith, small) in
    ap (λ m. in_mask m other) whole ∙ in_mask-pow tag other
