-- ===== src/Datalab/Arithmetic.antt =====
-- bits.c against tests.c: the puzzles about multiplication and division.
use computer_systems_labs.Base.{
  ℕ, ◌/◌, ◌%◌, ◌<◌, ◌≡◌, refl, ap, Bool, true, false, bit_and, bit_or, bit_xor, arith, word_max,
  word_mod, sign_bit, ltb, if◌then◌else◌, sar32, shl32, add32, not32,
}
use computer_systems_labs.Base.Bits.{bit_and_step, zero-bit_and, zero-bit_or}
use computer_systems_labs.Base.Bits.Laws.{ones-bit_and, bit_and-zero}
use computer_systems_labs.Datalab.Puzzles.{ez_three_fourths, sat_mul3, true_three_fourths}
use computer_systems_labs.Datalab.Reference.{
  ref_ez_three_fourths, ref_sat_mul3, ref_true_three_fourths,
}

-- `ezThreeFourths` agrees with its test function, a signed division by 4, on every 32-bit word.
pub ez_three_fourths-eq-ref_ez_three_fourths :
    (x : ℕ) → x < word_mod → ez_three_fourths x ≡ ref_ez_three_fourths x
unfolding ez_three_fourths ref_ez_three_fourths
ez_three_fourths-eq-ref_ez_three_fourths x h = ground arith

bit_and-three : (x : ℕ) → x < word_mod → bit_and x 3 ≡ x % 4
bit_and-three x h =
    omega
      (arith, bit_and_step x 3, bit_and_step (x / 2) 1, bit_and-zero 32 (x / 2 / 2) (omega arith))

-- `trueThreeFourths` agrees with its test function, which computes in 64 bits, on every 32-bit
-- word.
pub true_three_fourths-eq-ref_true_three_fourths :
    (x : ℕ) → x < word_mod → true_three_fourths x ≡ ref_true_three_fourths x
unfolding true_three_fourths ref_true_three_fourths
true_three_fourths-eq-ref_true_three_fourths x h =
    rw (bit_and-three x h) (ground (arith, bit_and-three (sar32 x 31)))

-- Shifting by 31 leaves the sign in every bit.
sar32-sign : (x : ℕ) → x < word_mod → sar32 x 31 ≡ (if ltb x sign_bit then 0 else word_max)
sar32-sign x h = ground arith

-- The word that is chosen from the three signs.
chosen : Bool → Bool → Bool → ℕ → ℕ
chosen true true true product = product
chosen true _ _ product = 0x7fff_ffff
chosen false false false product = product
chosen false _ _ product = 0x8000_0000

-- The mask arithmetic of `sat_mul3`, from the masks of the three signs.
combine : ℕ → ℕ → ℕ → ℕ → ℕ
combine mask1 mask2 mask3 product =
    let sign1 = bit_and mask1 1 in
    let sign2 = bit_and mask2 1 in
    let sign3 = bit_and mask3 1 in
    let overflow = bit_or (bit_xor sign1 sign2) (bit_xor sign2 sign3) in
    let overflow_mask = sar32 (shl32 overflow 31) 31 in
    let candidate = bit_xor (not32 mask1) (shl32 1 31) in
    bit_or (bit_and overflow_mask candidate) (bit_and (not32 overflow_mask) product)

kept : (product : ℕ) → product < word_mod → bit_or 0 (bit_and word_max product) ≡ product
kept product h = omega (arith, ones-bit_and 32 product h, zero-bit_or (bit_and word_max product))

combine-eq-chosen :
    (a b c : Bool) (product : ℕ)
    → product < word_mod
    → combine
        (if a then 0 else word_max)
        (if b then 0 else word_max)
        (if c then 0 else word_max)
        product
      ≡ chosen a b c product
unfolding combine chosen
combine-eq-chosen true true true p h = kept p h
combine-eq-chosen false false false p h = kept p h
combine-eq-chosen true true false p h = ap (bit_or 0x7fff_ffff) (zero-bit_and p)
combine-eq-chosen true false true p h = ap (bit_or 0x7fff_ffff) (zero-bit_and p)
combine-eq-chosen true false false p h = ap (bit_or 0x7fff_ffff) (zero-bit_and p)
combine-eq-chosen false true true p h = ap (bit_or 0x8000_0000) (zero-bit_and p)
combine-eq-chosen false true false p h = ap (bit_or 0x8000_0000) (zero-bit_and p)
combine-eq-chosen false false true p h = ap (bit_or 0x8000_0000) (zero-bit_and p)

sat_mul3-eq-chosen :
    (x : ℕ)
    → x < word_mod
    → sat_mul3 x
      ≡ chosen
          (ltb x sign_bit)
          (ltb (add32 x x) sign_bit)
          (ltb (add32 (add32 x x) x) sign_bit)
          (add32 (add32 x x) x)
unfolding sat_mul3 combine
sat_mul3-eq-chosen x h =
    rw
      (
        ← combine-eq-chosen (ltb x sign_bit) (ltb (add32 x x) sign_bit)
            (ltb (add32 (add32 x x) x) sign_bit) (add32 (add32 x x) x) (omega arith),
        ← sar32-sign x h,
        ← sar32-sign (add32 x x) (omega arith),
        ← sar32-sign (add32 (add32 x x) x) (omega arith),
      )
      refl

-- `satMul3` agrees with its test function, which finds an overflow by dividing, on every 32-bit
-- word.
pub sat_mul3-eq-ref_sat_mul3 : (x : ℕ) → x < word_mod → sat_mul3 x ≡ ref_sat_mul3 x
unfolding chosen ref_sat_mul3
sat_mul3-eq-ref_sat_mul3 x h = rw (sat_mul3-eq-chosen x h) (ground arith)
