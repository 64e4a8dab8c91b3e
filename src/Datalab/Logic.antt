-- ===== src/Datalab/Logic.antt =====
-- bits.c against tests.c: the puzzles about single bits and masks.
use computer_systems_labs.Base.{
  ℕ, zero, suc, ◌+◌, ◌*◌, ◌/◌, ◌%◌, ◌^◌, ◌≤◌, ◌<◌, ◌≡◌, refl, ◌↔◌, true, bit_and, arith, word_mod,
  ◌==◌, if◌then◌else◌, passes, passes-at, ==_iff, sar32, shl32,
}
use computer_systems_labs.Base.Bits.{bit_and_step}
use computer_systems_labs.Base.Bits.Laws.{
  bit_and-complement, bit_xor-eq-zero_iff, bit_and-power, bit_and-zero, two_pow_suc,
}
use native.Mathlib.Nat.{div-div-eq-div-mul, pow-le-pow_right, one-le-pow}
use native.Mathlib.Numerals.{towards_suc}
use computer_systems_labs.Datalab.Puzzles.{
  bit_nor, fits_short, any_even_bit, copy_lsb, implication, bit_mask,
}
use computer_systems_labs.Datalab.Reference.{
  ref_bit_nor, ref_fits_short, ref_any_even_bit, ref_copy_lsb, ref_implication, ref_bit_mask,
  short_int, any_even_bit_loop, bit_mask_loop,
}

-- `bitNor` agrees with its test function on every pair of 32-bit words.
pub bit_nor-eq-ref_bit_nor : (x y : ℕ) → x < word_mod → y < word_mod → bit_nor x y ≡ ref_bit_nor x y
unfolding bit_nor ref_bit_nor
bit_nor-eq-ref_bit_nor x y hx hy = bit_and-complement 32 x y hx hy

short_int-lt : (x : ℕ) → short_int x < word_mod
unfolding short_int
short_int-lt x = ground arith

-- Sixteen places to the left and back leave the word that its low half stands for as a `short`.
shifted-eq-short_int : (x : ℕ) → x < word_mod → sar32 (shl32 x 16) 16 ≡ short_int x
unfolding short_int
shifted-eq-short_int x h = ground arith

-- `fitsShort` agrees with its test function on every 32-bit word.
pub fits_short-eq-ref_fits_short : (x : ℕ) → x < word_mod → fits_short x ≡ ref_fits_short x
unfolding fits_short ref_fits_short
fits_short-eq-ref_fits_short x h =
    rw (shifted-eq-short_int x h)
      (ground (arith, bit_xor-eq-zero_iff 32 (short_int x) x (short_int-lt x)))

-- `copyLSB` agrees with its test function on every 32-bit word.
pub copy_lsb-eq-ref_copy_lsb : (x : ℕ) → x < word_mod → copy_lsb x ≡ ref_copy_lsb x
unfolding copy_lsb ref_copy_lsb
copy_lsb-eq-ref_copy_lsb x h = ground (arith, bit_and_step x 1, bit_and-zero 32 (x / 2))

-- `implication` agrees with its test function on arguments 0 and 1, the range that it is tested
-- on.
pub implication-eq-ref_implication :
    (x y : ℕ) → x < 2 → y < 2 → implication x y ≡ ref_implication x y
unfolding implication ref_implication
implication-eq-ref_implication zero zero hx hy = refl
implication-eq-ref_implication zero (suc zero) hx hy = refl
implication-eq-ref_implication (suc zero) zero hx hy = refl
implication-eq-ref_implication (suc zero) (suc zero) hx hy = refl
implication-eq-ref_implication x (suc (suc y)) hx hy = absurd (omega arith)
implication-eq-ref_implication (suc (suc x)) y hx hy = absurd (omega arith)

bit_mask_table : passes (λ h. passes (λ l. bit_mask h l == ref_bit_mask h l) 31) 31 ≡ true
unfolding passes bit_mask ref_bit_mask bit_mask_loop
bit_mask_table = refl

-- `bitMask` agrees with the loop of its test function on all bounds from 0 to 31, in either
-- order.
pub bit_mask-eq-ref_bit_mask : (h l : ℕ) → h < 32 → l < 32 → bit_mask h l ≡ ref_bit_mask h l
bit_mask-eq-ref_bit_mask h l hh hl = (==_iff _ _).0 (
    passes-at (λ j. bit_mask h j == ref_bit_mask h j) 31 l hl
      (passes-at (λ k. passes (λ j. bit_mask k j == ref_bit_mask k j) 31) 31 h hh bit_mask_table))

-- The mask of the `n` lowest even-numbered bits.
even_mask : ℕ → ℕ
even_mask zero = 0
even_mask (suc n) = 1 + 4 * even_mask n

mask_keeps : (n x : ℕ) → bit_and x (1 + 4 * n) ≡ x % 2 + 4 * bit_and (x / 4) n
mask_keeps n x =
    rw
      (bit_and_step x (1 + 4 * n), bit_and_step (x / 2) ((1 + 4 * n) / 2), quarter n, quarter_div x)
      (omega arith)
  where
    quarter : (m : ℕ) → (1 + 4 * m) / 2 / 2 ≡ m
    quarter m = omega arith

    quarter_div : (y : ℕ) → y / 2 / 2 ≡ y / 4
    quarter_div y = omega arith

two_places : (x i : ℕ) → x / 2 ^ i / 4 ≡ x / 2 ^ (i + 2)
two_places x i = rw (div-div-eq-div-mul x (2 ^ i) 4, four_times i)
  where
    four_times : (k : ℕ) → 2 ^ k * 4 ≡ 2 ^ (k + 2)
    four_times k = simp towards_suc (omega (arith, two_pow_suc k, two_pow_suc (suc k)))

power_fits : (i : ℕ) → i < 32 → shl32 1 i ≡ 2 ^ i
power_fits i h =
    omega (arith, pow-le-pow_right {n = 2} (omega arith) {i = i} {j = 31} (omega arith))

-- `x & (1 << i)` is zero exactly when bit `i` is.
bit_zero_iff : (x i : ℕ) → x < word_mod → i < 32 → (bit_and x (shl32 1 i) ≡ 0) ↔ (x / 2 ^ i % 2 ≡ 0)
bit_zero_iff x i hx hi =
    rw (power_fits i hi, bit_and-power 32 i x hx) (grind (arith, one-le-pow i 2))

-- From bit `i` on, the loop tests the even-numbered bits that are left.
any_even_bit_loop-mask :
    (x fuel n i : ℕ)
    → x < word_mod
    → i + 2 * n ≡ 32
    → n ≤ fuel
    → any_even_bit_loop x fuel i ≡ (if bit_and (x / 2 ^ i) (even_mask n) == 0 then 0 else 1)
unfolding any_even_bit_loop even_mask
any_even_bit_loop-mask x zero zero i hx hi hn = rw (bit_and-zero 32 (x / 2 ^ i) (omega arith)) refl
any_even_bit_loop-mask x (suc fuel) zero i hx hi hn = ground (arith, bit_and-zero 32 (x / 2 ^ i))
any_even_bit_loop-mask x zero (suc n) i hx hi hn = absurd (omega arith)
any_even_bit_loop-mask x (suc fuel) (suc n) i hx hi hn =
    rw (mask_keeps (even_mask n) (x / 2 ^ i), two_places x i)
      (ground
        (arith, bit_zero_iff x i hx, any_even_bit_loop-mask x fuel n (i + 2) hx (omega arith)))

-- `anyEvenBit` agrees with the loop of its test function on every 32-bit word.
pub any_even_bit-eq-ref_any_even_bit : (x : ℕ) → x < word_mod → any_even_bit x ≡ ref_any_even_bit x
unfolding any_even_bit ref_any_even_bit even_mask
any_even_bit-eq-ref_any_even_bit x h =
    let run = any_even_bit_loop-mask x 32 16 0 h refl (omega arith) in
    let whole : x / 1 ≡ x = omega arith in rw (run, whole) (ground arith)
