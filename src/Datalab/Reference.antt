-- ===== src/Datalab/Reference.antt =====
-- lab1-datalab/tests.c: the functions that the test harness compares the puzzles with.
use computer_systems_labs.Base.{
  ℕ, zero, suc, ◌+◌, ◌*◌, ◌%◌, bit_and, bit_or, bit_xor, add32, not32, shl32, sar32, lnot32, sdiv32,
  word_max, word_mod, sign_bit, ltb, leb, ◌==◌, if◌then◌else◌, signed32, scale, quot, int32,
}

unfoldable pub ref_bit_nor : ℕ → ℕ → ℕ
ref_bit_nor x y = not32 (bit_or x y)

-- `(short int) x`, widened to an `int` again by its sign.
unfoldable pub short_int : ℕ → ℕ
short_int x = let low = x % 0x1_0000 in if ltb low 0x8000 then low else low + 0xffff_0000

unfoldable pub ref_fits_short : ℕ → ℕ
ref_fits_short x = if x == short_int x then 1 else 0

-- `for (; i < 32; i += 3) result |= 1 << i`, with a bound on the rounds left.
unfoldable pub third_bits_loop : ℕ → ℕ → ℕ → ℕ
third_bits_loop zero i result = result
third_bits_loop (suc fuel) i result =
    let rest = third_bits_loop fuel (i + 3) (bit_or result (shl32 1 i)) in
    if ltb i 32 then rest else result

unfoldable pub ref_third_bits : ℕ
ref_third_bits = third_bits_loop 32 0 0

-- `for (; i < 32; i += 2) if (x & (1 << i)) return 1; return 0`
unfoldable pub any_even_bit_loop : ℕ → ℕ → ℕ → ℕ
any_even_bit_loop x zero i = 0
any_even_bit_loop x (suc fuel) i =
    let rest = any_even_bit_loop x fuel (i + 2) in
    if ltb i 32 then (if bit_and x (shl32 1 i) == 0 then rest else 1) else 0

unfoldable pub ref_any_even_bit : ℕ → ℕ
ref_any_even_bit x = any_even_bit_loop x 32 0

unfoldable pub ref_copy_lsb : ℕ → ℕ
ref_copy_lsb x = if bit_and x 1 == 0 then 0 else word_max

unfoldable pub ref_implication : ℕ → ℕ → ℕ
ref_implication x y = lnot32 (bit_and x (lnot32 y))

-- `for (; i <= highbit; i++) result |= 1 << i`, with a bound on the rounds left.
unfoldable pub bit_mask_loop : ℕ → ℕ → ℕ → ℕ → ℕ
bit_mask_loop highbit zero i result = result
bit_mask_loop highbit (suc fuel) i result =
    let rest = bit_mask_loop highbit fuel (i + 1) (bit_or result (shl32 1 i)) in
    if leb i highbit then rest else result

unfoldable pub ref_bit_mask : ℕ → ℕ → ℕ
ref_bit_mask highbit lowbit = bit_mask_loop highbit 32 lowbit 0

unfoldable pub ref_ez_three_fourths : ℕ → ℕ
ref_ez_three_fourths x = sdiv32 (x * 3 % word_mod) 4

unfoldable pub ref_sat_mul3 : ℕ → ℕ
ref_sat_mul3 x =
    if sdiv32 (add32 (add32 x x) x) 3 == x
    then 3 * x % word_mod
    else if ltb x sign_bit
    then 0x7fff_ffff
    else 0x8000_0000

-- `for (i = 0; i < 32; i++) result ^= (x >> i) & 1`, with the rounds left.
unfoldable pub bit_parity_loop : ℕ → ℕ → ℕ → ℕ → ℕ
bit_parity_loop x zero i result = result
bit_parity_loop x (suc left) i result =
    bit_parity_loop x left (i + 1) (bit_xor result (bit_and (sar32 x i) 1))

unfoldable pub ref_bit_parity : ℕ → ℕ
ref_bit_parity x = bit_parity_loop x 32 0 0

-- `(int) (((long long int) x * 3) / 4)`: the product fits 64 bits.
unfoldable pub ref_true_three_fourths : ℕ → ℕ
ref_true_three_fourths x = int32 (quot (scale 3 (signed32 x)) 4)
