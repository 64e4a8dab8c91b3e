-- ===== src/Tests/Puzzles.antt =====
-- The examples in the comments of lab1-datalab/bits.c, and instances of the theorems.
use computer_systems_labs.Base.{◌≡◌, refl, arith}
use computer_systems_labs.Datalab.Puzzles.{
  bit_nor, fits_short, third_bits, any_even_bit, copy_lsb, bit_mask, ez_three_fourths, sat_mul3,
  bit_parity, true_three_fourths, fold_xor,
}
use computer_systems_labs.Datalab.Reference.{
  ref_bit_nor, ref_fits_short, ref_third_bits, ref_any_even_bit, ref_copy_lsb, ref_ez_three_fourths,
  ref_sat_mul3, ref_bit_parity, ref_true_three_fourths, third_bits_loop,
}
use computer_systems_labs.Datalab.Arithmetic.{
  true_three_fourths-eq-ref_true_three_fourths, sat_mul3-eq-ref_sat_mul3,
}
use computer_systems_labs.Datalab.Agreement.{short_puzzles-agree}
use computer_systems_labs.Datalab.Parity.{bit_parity-eq-ref_bit_parity}

bit_nor_comment : bit_nor 0x6 0x5 ≡ 0xffff_fff8
unfolding bit_nor
bit_nor_comment = refl

fits_short_comment : (fits_short 33000 ≡ 0) × (fits_short 0xffff_8000 ≡ 1)
unfolding fits_short
fits_short_comment = (refl, refl)

third_bits_reference : third_bits ≡ ref_third_bits
unfolding third_bits ref_third_bits third_bits_loop
third_bits_reference = refl

any_even_bit_comment : (any_even_bit 0xa ≡ 0) × (any_even_bit 0xe ≡ 1)
unfolding any_even_bit
any_even_bit_comment = (refl, refl)

copy_lsb_comment : (copy_lsb 5 ≡ 0xffff_ffff) × (copy_lsb 6 ≡ 0)
unfolding copy_lsb
copy_lsb_comment = (refl, refl)

bit_mask_comment : bit_mask 5 3 ≡ 0x38
unfolding bit_mask
bit_mask_comment = refl

ez_three_fourths_comment :
    (ez_three_fourths 11 ≡ 8)
    × (ez_three_fourths 0xffff_fff7 ≡ 0xffff_fffa)
    × (ez_three_fourths 1073741824 ≡ 0xf000_0000)
unfolding ez_three_fourths
ez_three_fourths_comment = (refl, refl, refl)

sat_mul3_comment :
    (sat_mul3 0x1000_0000 ≡ 0x3000_0000)
    × (sat_mul3 0x3000_0000 ≡ 0x7fff_ffff)
    × (sat_mul3 0x7000_0000 ≡ 0x7fff_ffff)
    × (sat_mul3 0xd000_0000 ≡ 0x8000_0000)
    × (sat_mul3 0xa000_0000 ≡ 0x8000_0000)
unfolding sat_mul3
sat_mul3_comment = (refl, refl, refl, refl, refl)

bit_parity_comment : (bit_parity 5 ≡ 0) × (bit_parity 7 ≡ 1)
unfolding bit_parity fold_xor
bit_parity_comment = (refl, refl)

true_three_fourths_comment :
    (true_three_fourths 11 ≡ 8)
    × (true_three_fourths 0xffff_fff7 ≡ 0xffff_fffa)
    × (true_three_fourths 1073741824 ≡ 805306368)
unfolding true_three_fourths
true_three_fourths_comment = (refl, refl, refl)

short_puzzles-agree_example :
    (bit_nor 0x8000_0001 0x1234 ≡ ref_bit_nor 0x8000_0001 0x1234)
    × (fits_short 0x8000_0001 ≡ ref_fits_short 0x8000_0001)
    × (copy_lsb 0x8000_0001 ≡ ref_copy_lsb 0x8000_0001)
    × (any_even_bit 0x8000_0001 ≡ ref_any_even_bit 0x8000_0001)
    × (ez_three_fourths 0x8000_0001 ≡ ref_ez_three_fourths 0x8000_0001)
short_puzzles-agree_example = short_puzzles-agree 0x8000_0001 0x1234 (omega arith) (omega arith)

true_three_fourths_example : true_three_fourths 0x8000_0001 ≡ ref_true_three_fourths 0x8000_0001
true_three_fourths_example = true_three_fourths-eq-ref_true_three_fourths 0x8000_0001 (omega arith)

sat_mul3_example : sat_mul3 0x2aaa_aaab ≡ ref_sat_mul3 0x2aaa_aaab
sat_mul3_example = sat_mul3-eq-ref_sat_mul3 0x2aaa_aaab (omega arith)

bit_parity_example : bit_parity 0x8000_0001 ≡ ref_bit_parity 0x8000_0001
bit_parity_example = bit_parity-eq-ref_bit_parity 0x8000_0001 (omega arith)
