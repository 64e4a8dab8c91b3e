-- ===== src/Datalab/Parity.antt =====
-- bits.c against tests.c: folding a word onto itself sums its bits modulo 2.
use computer_systems_labs.Base.{
  ℕ, zero, suc, ◌+◌, ◌*◌, ◌/◌, ◌%◌, ◌-◌, ◌^◌, ◌≤◌, ◌<◌, ◌≡◌, refl, ap, sym, ◌∙◌, bit_and, bit_xor,
  arith, word_max, word_mod, sar32,
}
use computer_systems_labs.Base.Bits.{bit_and_step, bit_xor_step, zero-bit_xor}
use computer_systems_labs.Base.Bits.Laws.{
  bit_and-zero, bit_xor-lt, two_pow_suc, div_two_pow_suc, two_pow_add, mod_two_pow_suc, half_xor,
}
use native.Mathlib.Nat.{
  one-le-pow, zero-add, suc-add, div-one, div-le_self, mod-lt, mod-add-div', div-div-eq-div-mul,
}
use native.Mathlib.Numerals.{add-one}
use native.Mathlib.Nat.{div-lt_iff_lt-mul, mul-add-div_right, div-eq_of_lt, pow-le-pow_right}
use computer_systems_labs.Datalab.Puzzles.{bit_parity, fold_xor}
use computer_systems_labs.Datalab.Reference.{ref_bit_parity, bit_parity_loop}

-- The number of ones among the `n` lowest bits of `x`.
unfoldable pub ones : ℕ → ℕ → ℕ
ones zero x = 0
ones (suc n) x = x % 2 + ones n (x / 2)

ones-add : (n k x : ℕ) → ones (n + k) x ≡ ones n x + ones k (x / 2 ^ n)
unfolding ones
ones-add zero k x = rw (zero-add k, div-one x) (omega arith)
ones-add (suc n) k x = rw (suc-add n k, div_two_pow_suc n x) (omega (arith, ones-add n k (x / 2)))

-- Only the `n` lowest bits count.
ones_low : (n x y : ℕ) → x % 2 ^ n ≡ y % 2 ^ n → ones n x ≡ ones n y
unfolding ones
ones_low zero x y e = refl
ones_low (suc n) x y e = omega (
  arith,
  mod_two_pow_suc n x,
  mod_two_pow_suc n y,
  ones_low n (x / 2) (y / 2) (omega (arith, mod_two_pow_suc n x, mod_two_pow_suc n y)),
)

ones-bit_xor : (n x y : ℕ) → ones n (bit_xor x y) % 2 ≡ (ones n x + ones n y) % 2
unfolding ones
ones-bit_xor zero x y = refl
ones-bit_xor (suc n) x y =
    rw (half_xor x y) (omega (arith, bit_xor_step x y, ones-bit_xor n (x / 2) (y / 2)))

fold_xor-lt : (x k : ℕ) → x < word_mod → fold_xor x k < word_mod
unfolding fold_xor
fold_xor-lt x k h = bit_xor-lt 32 x (sar32 x k) h (ground (arith, div-le_self x (2 ^ k)))

-- One fold: the low half of the result has the parity of both halves.
ones-fold_xor :
    (n x : ℕ)
    → sar32 x n % 2 ^ n ≡ x / 2 ^ n % 2 ^ n
    → ones n (fold_xor x n) % 2 ≡ ones (n + n) x % 2
unfolding fold_xor
ones-fold_xor n x e =
    omega
      (arith, ones-bit_xor n x (sar32 x n), ones_low n (sar32 x n) (x / 2 ^ n) e, ones-add n n x)

bit_and-one : (x : ℕ) → x < word_mod → bit_and x 1 ≡ x % 2
bit_and-one x h = omega (arith, bit_and_step x 1, bit_and-zero 32 (x / 2) (omega arith))

bit_parity-ones : (x : ℕ) → x < word_mod → bit_parity x ≡ ones 32 x % 2
unfolding bit_parity
bit_parity-ones x h =
    let x1 = fold_xor x 16 in
    let x2 = fold_xor x1 8 in
    let x3 = fold_xor x2 4 in
    let x4 = fold_xor x3 2 in
    let h1 : x1 < word_mod = fold_xor-lt x 16 h in
    let h2 : x2 < word_mod = fold_xor-lt x1 8 h1 in
    let h3 : x3 < word_mod = fold_xor-lt x2 4 h2 in
    let h4 : x4 < word_mod = fold_xor-lt x3 2 h3 in
    let e1 = ones-fold_xor 16 x (ground arith) in
    let e2 = ones-fold_xor 8 x1 (ground arith) in
    let e3 = ones-fold_xor 4 x2 (ground arith) in
    let e4 = ones-fold_xor 2 x3 (ground arith) in
    let e5 = ones-fold_xor 1 x4 (ground arith) in
    rw (bit_and-one (fold_xor x4 1) (fold_xor-lt x4 1 h4))
      (lowest (fold_xor x4 1) ∙ e5 ∙ e4 ∙ e3 ∙ e2 ∙ e1)
  where
    lowest : (y : ℕ) → y % 2 ≡ ones 1 y % 2
    lowest y = unfold ones in omega arith

-- `(W - x) / p` where `2 p q` is `W + 1`: the digits above `p`, complemented.
complement_quotient :
    (x p q : ℕ)
    → 2 * q * p ≡ word_mod
    → 0 < p
    → x < word_mod
    → (word_max - x) / p + x / p + 1 ≡ 2 * q
complement_quotient x p q e pos h =
    let a = x / p in
    let r = x % p in
    let t = 2 * q - 1 - a in
    let small : r < p = mod-lt x pos in
    let below : a < 2 * q = (div-lt_iff_lt-mul pos).1 (omega arith) in
    let whole : t + a + 1 ≡ 2 * q = omega arith in
    let split : word_max - x ≡ t * p + (p - 1 - r) =
      omega (arith, ap (λ (s : ℕ). s * p) whole, mod-add-div' x p) in
    rw
      (
        split,
        mul-add-div_right pos t (p - 1 - r),
        div-eq_of_lt {n = p - 1 - r} {m = p} (omega arith),
      )
      (omega arith)

sar32-parity : (x i : ℕ) → x < word_mod → i < 32 → sar32 x i % 2 ≡ x / 2 ^ i % 2
sar32-parity x i h hi =
    let pos = one-le-pow i 2 (omega arith) in
    let square : 2 * 2 ^ (31 - i) * 2 ^ i ≡ word_mod = powers in
    let high : 2 ^ (31 - i) ≤ 2 ^ 31 =
      pow-le-pow_right {n = 2} (omega arith) {i = 31 - i} {j = 31} (omega arith) in
    ground (arith, complement_quotient x (2 ^ i) (2 ^ (31 - i)) square pos h)
  where
    powers : 2 * 2 ^ (31 - i) * 2 ^ i ≡ word_mod
    powers = omega (arith, two_pow_add (31 - i) i, ap (λ (s : ℕ). 2 ^ s) back)
      where
        back : (31 - i) + i ≡ 31
        back = omega arith

bit_xor_digits : (a b : ℕ) → a < 2 → b < 2 → bit_xor a b ≡ (a + b) % 2
bit_xor_digits zero b ha hb = omega (arith, zero-bit_xor b)
bit_xor_digits (suc zero) zero ha hb = refl
bit_xor_digits (suc zero) (suc zero) ha hb = refl
bit_xor_digits (suc zero) (suc (suc b)) ha hb = absurd (omega arith)
bit_xor_digits (suc (suc a)) b ha hb = absurd (omega arith)

next_bit : (x i : ℕ) → x / 2 ^ (i + 1) ≡ x / 2 ^ i / 2
next_bit x i =
    rw (add-one i, two_pow_suc i, div-div-eq-div-mul x (2 ^ i) 2)
      (ap (λ (d : ℕ). x / d) (omega arith))

-- The reference loop adds up the bits that are left.
bit_parity_loop-ones :
    (x left i result : ℕ)
    → x < word_mod
    → i + left ≡ 32
    → result < 2
    → bit_parity_loop x left i result ≡ (result + ones left (x / 2 ^ i)) % 2
unfolding bit_parity_loop ones
bit_parity_loop-ones x zero i result h e b = omega arith
bit_parity_loop-ones x (suc left) i result h e b =
    let bit = sar32-parity x i h (omega arith) in
    let low = bit_and-one (sar32 x i) (ground (arith, div-le_self x (2 ^ i))) in
    let joined = bit_xor_digits result (sar32 x i % 2) b (omega arith) in
    let rest =
      bit_parity_loop-ones x left (i + 1) ((result + sar32 x i % 2) % 2) h (omega arith)
        (omega arith) in
    rw (low, joined, rest, next_bit x i) (omega arith)

-- `bitParity` agrees with the loop of its test function on every 32-bit word.
pub bit_parity-eq-ref_bit_parity : (x : ℕ) → x < word_mod → bit_parity x ≡ ref_bit_parity x
unfolding ref_bit_parity
bit_parity-eq-ref_bit_parity x h =
    bit_parity-ones x h
    ∙ sym
        (bit_parity_loop-ones x 32 0 0 h refl (omega arith) ∙ rw (div-one x, zero-add (ones 32 x)))
