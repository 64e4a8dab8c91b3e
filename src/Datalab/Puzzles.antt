-- ===== src/Datalab/Puzzles.antt =====
-- lab1-datalab/bits.c: the puzzles that are solved there, on 32-bit patterns. `ilog2` returns a
-- name that it does not declare, so that it does not compile, and the three `float_` functions
-- are left as `return 2`; none of the four has a model.
use computer_systems_labs.Base.{ℕ, bit_and, bit_or, bit_xor, add32, not32, shl32, sar32, lnot32}

unfoldable pub bit_nor : ℕ → ℕ → ℕ
bit_nor x y = bit_and (not32 x) (not32 y)

unfoldable pub fits_short : ℕ → ℕ
fits_short x = lnot32 (bit_xor (sar32 (shl32 x 16) 16) x)

unfoldable pub third_bits : ℕ
third_bits = let x : ℕ = 0x49 in let y = shl32 x 9 in let z = add32 x y in add32 (shl32 z 18) z

unfoldable pub any_even_bit : ℕ → ℕ
any_even_bit x =
    let y = bit_or 0x55 (shl32 0x55 8) in
    let m = bit_or y (shl32 y 16) in lnot32 (lnot32 (bit_and x m))

unfoldable pub copy_lsb : ℕ → ℕ
copy_lsb x = sar32 (shl32 x 31) 31

unfoldable pub implication : ℕ → ℕ → ℕ
implication x y = bit_or (bit_xor x (lnot32 y)) y

unfoldable pub bit_mask : ℕ → ℕ → ℕ
bit_mask highbit lowbit =
    let l = shl32 (not32 0) lowbit in
    let h = shl32 (not32 0) highbit in let h' = not32 (shl32 h 1) in bit_and h' l

unfoldable pub ez_three_fourths : ℕ → ℕ
ez_three_fourths x =
    let z = add32 (add32 x x) x in
    let s = sar32 z 31 in
    let neg = lnot32 (lnot32 s) in let o = add32 (add32 neg neg) neg in sar32 (add32 z o) 2

unfoldable pub sat_mul3 : ℕ → ℕ
sat_mul3 x =
    let x_sign_mask = sar32 x 31 in
    let x_sign = bit_and x_sign_mask 1 in
    let mul2 = add32 x x in
    let mul2_sign = bit_and (sar32 mul2 31) 1 in
    let mul3 = add32 mul2 x in
    let mul3_sign = bit_and (sar32 mul3 31) 1 in
    let overflow = bit_or (bit_xor x_sign mul2_sign) (bit_xor mul2_sign mul3_sign) in
    let overflow_mask = sar32 (shl32 overflow 31) 31 in
    let overflow_candidate = bit_xor (not32 x_sign_mask) (shl32 1 31) in
    bit_or (bit_and overflow_mask overflow_candidate) (bit_and (not32 overflow_mask) mul3)

-- `x ^= x >> k`
unfoldable pub fold_xor : ℕ → ℕ → ℕ
fold_xor x k = bit_xor x (sar32 x k)

unfoldable pub bit_parity : ℕ → ℕ
bit_parity x = bit_and (fold_xor (fold_xor (fold_xor (fold_xor (fold_xor x 16) 8) 4) 2) 1) 1

unfoldable pub true_three_fourths : ℕ → ℕ
true_three_fourths x =
    let s = sar32 x 31 in
    let r = bit_and x 3 in
    let x' = sar32 x 2 in
    let x'' = add32 x' (shl32 x' 1) in
    add32 x'' (sar32 (add32 (add32 r (shl32 r 1)) (bit_and s 3)) 2)
