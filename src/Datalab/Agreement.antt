-- ===== src/Datalab/Agreement.antt =====
-- lab1-datalab: the shorter puzzles of bits.c with their functions of tests.c.
use computer_systems_labs.Base.{ℕ, ◌<◌, ◌≡◌, word_mod}
use computer_systems_labs.Datalab.Puzzles.{
  bit_nor, fits_short, any_even_bit, copy_lsb, ez_three_fourths,
}
use computer_systems_labs.Datalab.Reference.{
  ref_bit_nor, ref_fits_short, ref_any_even_bit, ref_copy_lsb, ref_ez_three_fourths,
}
use computer_systems_labs.Datalab.Logic.{
  bit_nor-eq-ref_bit_nor, fits_short-eq-ref_fits_short, copy_lsb-eq-ref_copy_lsb,
  any_even_bit-eq-ref_any_even_bit,
}
use computer_systems_labs.Datalab.Arithmetic.{ez_three_fourths-eq-ref_ez_three_fourths}

-- On all 32-bit words bitNor, fitsShort, copyLSB, anyEvenBit and ezThreeFourths return what their test
-- functions return, which look at one bit after the other for anyEvenBit.
pub short_puzzles-agree :
    (x y : ℕ)
    → x < word_mod
    → y < word_mod
    → (bit_nor x y ≡ ref_bit_nor x y)
      × (fits_short x ≡ ref_fits_short x)
      × (copy_lsb x ≡ ref_copy_lsb x)
      × (any_even_bit x ≡ ref_any_even_bit x)
      × (ez_three_fourths x ≡ ref_ez_three_fourths x)
short_puzzles-agree x y hx hy = (
  bit_nor-eq-ref_bit_nor x y hx hy,
  fits_short-eq-ref_fits_short x hx,
  copy_lsb-eq-ref_copy_lsb x hx,
  any_even_bit-eq-ref_any_even_bit x hx,
  ez_three_fourths-eq-ref_ez_three_fourths x hx,
)
