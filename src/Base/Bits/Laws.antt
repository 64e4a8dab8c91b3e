-- ===== src/Base/Bits/Laws.antt =====
-- Laws of `&`, `|`, `^` at every width, by induction on the number of bits.
use computer_systems_labs.Base.Bits.Step.{bit_and_step, bit_or_step, bit_xor_step}
use computer_systems_labs.Base.Bits.Step.{zero-bit_and, zero-bit_or, zero-bit_xor}
use Prim.Native.Nat.{ℕ, zero, suc, ◌+◌, ◌-◌, ◌*◌, ◌/◌, ◌%◌, ◌^◌, ◌<◌, bit_and, bit_or, bit_xor}
use mathlib.Core.Logic.{◌↔◌}
use mathlib.Core.Path.{◌≡◌, refl, sym}
use native.Mathlib.Omega.{arith}
use native.Mathlib.Nat.{pow-suc, one-le-pow, div-div-eq-div-mul, zero-div}
use native.Mathlib.Nat.{zero-add, suc-add, mod-eq-sub-mul-div, mul-div-le}

pub two_pow_suc : (w : ℕ) → 2 ^ suc w ≡ 2 * 2 ^ w
two_pow_suc w = omega (arith, pow-suc 2 w)

pub two_pow_add : (i j : ℕ) → 2 ^ (i + j) ≡ 2 ^ i * 2 ^ j
two_pow_add zero j = rw zero-add (omega arith)
two_pow_add (suc i) j =
    rw (suc-add, two_pow_suc (i + j), two_pow_suc i, two_pow_add i j) (omega arith)

pub div_two_pow_suc : (k x : ℕ) → x / 2 ^ suc k ≡ x / 2 / 2 ^ k
div_two_pow_suc k x = rw (two_pow_suc k) (sym (div-div-eq-div-mul x 2 (2 ^ k)))

-- The lowest bit and the others.
pub mod_two_pow_suc : (w x : ℕ) → x % 2 ^ suc w ≡ x % 2 + 2 * (x / 2 % 2 ^ w)
mod_two_pow_suc w x =
    rw
      (
        mod-eq-sub-mul-div x (2 ^ suc w),
        div_two_pow_suc w x,
        two_pow_suc w,
        mod-eq-sub-mul-div (x / 2) (2 ^ w),
      )
      (omega (arith, mul-div-le (x / 2) (2 ^ w)))

-- The results stay within the width.
pub bit_and-lt : (w x y : ℕ) → x < 2 ^ w → bit_and x y < 2 ^ w
bit_and-lt zero zero y h = omega (arith, zero-bit_and y)
bit_and-lt zero (suc x) y h = absurd (omega arith)
bit_and-lt (suc w) x y h = omega (
  arith,
  two_pow_suc w,
  bit_and_step x y,
  bit_and-lt w (x / 2) (y / 2) (omega (arith, two_pow_suc w)),
)

pub bit_or-lt : (w x y : ℕ) → x < 2 ^ w → y < 2 ^ w → bit_or x y < 2 ^ w
bit_or-lt zero zero y hx hy = omega (arith, zero-bit_or y)
bit_or-lt zero (suc x) y hx hy = absurd (omega arith)
bit_or-lt (suc w) x y hx hy =
    let half = bit_or-lt w (x / 2) (y / 2) in
    omega (
      arith,
      two_pow_suc w,
      bit_or_step x y,
      half (omega (arith, two_pow_suc w)) (omega (arith, two_pow_suc w)),
    )

pub bit_xor-lt : (w x y : ℕ) → x < 2 ^ w → y < 2 ^ w → bit_xor x y < 2 ^ w
bit_xor-lt zero zero y hx hy = omega (arith, zero-bit_xor y)
bit_xor-lt zero (suc x) y hx hy = absurd (omega arith)
bit_xor-lt (suc w) x y hx hy =
    let half = bit_xor-lt w (x / 2) (y / 2) in
    omega (
      arith,
      two_pow_suc w,
      bit_xor_step x y,
      half (omega (arith, two_pow_suc w)) (omega (arith, two_pow_suc w)),
    )

-- Half of a complement is the complement of the half.
half_complement : (w x : ℕ) → x < 2 ^ suc w → (2 ^ suc w - 1 - x) / 2 ≡ 2 ^ w - 1 - x / 2
half_complement w x h = omega (arith, two_pow_suc w)

half_ones : (w : ℕ) → (2 ^ suc w - 1) / 2 ≡ 2 ^ w - 1
half_ones w = omega (arith, two_pow_suc w)

-- `~x & ~y` is `~(x | y)`.
pub bit_and-complement :
    (w x y : ℕ)
    → x < 2 ^ w
    → y < 2 ^ w
    → bit_and (2 ^ w - 1 - x) (2 ^ w - 1 - y) ≡ 2 ^ w - 1 - bit_or x y
bit_and-complement zero zero y hx hy = omega (arith, zero-bit_and (2 ^ 0 - 1 - y))
bit_and-complement zero (suc x) y hx hy = absurd (omega arith)
bit_and-complement (suc w) x y hx hy =
    let below_x : x / 2 < 2 ^ w = omega (arith, two_pow_suc w) in
    let below_y : y / 2 < 2 ^ w = omega (arith, two_pow_suc w) in
    rw
      (
        bit_and_step (2 ^ suc w - 1 - x) (2 ^ suc w - 1 - y),
        half_complement w x hx,
        half_complement w y hy,
        bit_and-complement w (x / 2) (y / 2) below_x below_y,
      )
      (omega (arith, two_pow_suc w, bit_or_step x y, bit_or-lt w (x / 2) (y / 2) below_x below_y))

-- A mask of ones keeps every bit, and turns `^` into the complement.
pub ones-bit_and : (w x : ℕ) → x < 2 ^ w → bit_and (2 ^ w - 1) x ≡ x
ones-bit_and zero x h = omega (arith, zero-bit_and x)
ones-bit_and (suc w) x h =
    let below : x / 2 < 2 ^ w = omega (arith, two_pow_suc w) in
    rw (bit_and_step (2 ^ suc w - 1) x, half_ones w, ones-bit_and w (x / 2) below)
      (omega (arith, two_pow_suc w, one-le-pow w 2))

pub bit_and-ones : (w x : ℕ) → x < 2 ^ w → bit_and x (2 ^ w - 1) ≡ x
bit_and-ones zero zero h = zero-bit_and 0
bit_and-ones zero (suc x) h = absurd (omega arith)
bit_and-ones (suc w) x h =
    let below : x / 2 < 2 ^ w = omega (arith, two_pow_suc w) in
    rw (bit_and_step x (2 ^ suc w - 1), half_ones w, bit_and-ones w (x / 2) below)
      (omega (arith, two_pow_suc w, one-le-pow w 2))

pub ones-bit_xor : (w x : ℕ) → x < 2 ^ w → bit_xor (2 ^ w - 1) x ≡ 2 ^ w - 1 - x
ones-bit_xor zero x h = omega (arith, zero-bit_xor x)
ones-bit_xor (suc w) x h =
    let below : x / 2 < 2 ^ w = omega (arith, two_pow_suc w) in
    rw (bit_xor_step (2 ^ suc w - 1) x, half_ones w, ones-bit_xor w (x / 2) below)
      (omega (arith, two_pow_suc w, one-le-pow w 2))

-- `x ^ y` is zero only if the two are the same.
bit_xor_self : (w x : ℕ) → x < 2 ^ w → bit_xor x x ≡ 0
bit_xor_self zero zero h = zero-bit_xor 0
bit_xor_self zero (suc x) h = absurd (omega arith)
bit_xor_self (suc w) x h =
    omega (arith, bit_xor_step x x, bit_xor_self w (x / 2) (omega (arith, two_pow_suc w)))

eq_of_bit_xor-eq-zero : (w x y : ℕ) → x < 2 ^ w → bit_xor x y ≡ 0 → x ≡ y
eq_of_bit_xor-eq-zero zero zero y hx e = omega (arith, zero-bit_xor y)
eq_of_bit_xor-eq-zero zero (suc x) y hx e = absurd (omega arith)
eq_of_bit_xor-eq-zero (suc w) x y hx e =
    let step = bit_xor_step x y in
    let half =
      eq_of_bit_xor-eq-zero w (x / 2) (y / 2) (omega (arith, two_pow_suc w)) (omega arith) in
    omega arith

pub bit_xor-eq-zero_iff : (w x y : ℕ) → x < 2 ^ w → (bit_xor x y ≡ 0) ↔ (x ≡ y)
bit_xor-eq-zero_iff w x y h = (eq_of_bit_xor-eq-zero w x y h, λ e. rw (← e) (bit_xor_self w x h))

pub bit_or-eq-zero : (w x y : ℕ) → x < 2 ^ w → bit_or x y ≡ 0 → (x ≡ 0) × (y ≡ 0)
bit_or-eq-zero zero zero y hx e = (refl, omega (arith, zero-bit_or y))
bit_or-eq-zero zero (suc x) y hx e = absurd (omega arith)
bit_or-eq-zero (suc w) x y hx e =
    let step = bit_or_step x y in
    let half = bit_or-eq-zero w (x / 2) (y / 2) (omega (arith, two_pow_suc w)) (omega arith) in
    omega arith

-- Zero on the right.
pub bit_and-zero : (w x : ℕ) → x < 2 ^ w → bit_and x 0 ≡ 0
bit_and-zero zero zero h = zero-bit_and 0
bit_and-zero zero (suc x) h = absurd (omega arith)
bit_and-zero (suc w) x h =
    omega (arith, bit_and_step x 0, bit_and-zero w (x / 2) (omega (arith, two_pow_suc w)))

pub bit_or-zero : (w x : ℕ) → x < 2 ^ w → bit_or x 0 ≡ x
bit_or-zero zero zero h = zero-bit_or 0
bit_or-zero zero (suc x) h = absurd (omega arith)
bit_or-zero (suc w) x h =
    omega (arith, bit_or_step x 0, bit_or-zero w (x / 2) (omega (arith, two_pow_suc w)))

pub bit_xor-zero : (w x : ℕ) → x < 2 ^ w → bit_xor x 0 ≡ x
bit_xor-zero zero zero h = zero-bit_xor 0
bit_xor-zero zero (suc x) h = absurd (omega arith)
bit_xor-zero (suc w) x h =
    omega (arith, bit_xor_step x 0, bit_xor-zero w (x / 2) (omega (arith, two_pow_suc w)))

pub half_xor : (x y : ℕ) → bit_xor x y / 2 ≡ bit_xor (x / 2) (y / 2)
half_xor x y = omega (arith, bit_xor_step x y)

-- Bit `k` of `x ^ y`.
pub bit_xor-bit : (k x y : ℕ) → bit_xor x y / 2 ^ k % 2 ≡ (x / 2 ^ k % 2 + y / 2 ^ k % 2) % 2
bit_xor-bit zero x y = omega (arith, bit_xor_step x y)
bit_xor-bit (suc k) x y =
    rw (div_two_pow_suc k (bit_xor x y), div_two_pow_suc k x, div_two_pow_suc k y, half_xor x y)
      (bit_xor-bit k (x / 2) (y / 2))

half_double : (n : ℕ) → 2 * n / 2 ≡ n
half_double n = omega arith

-- `x & (1 << k)` is bit `k` in its place.
pub bit_and-power : (w k x : ℕ) → x < 2 ^ w → bit_and x (2 ^ k) ≡ x / 2 ^ k % 2 * 2 ^ k
bit_and-power zero k zero h = rw (zero-div (2 ^ k)) (omega (arith, zero-bit_and (2 ^ k)))
bit_and-power zero k (suc x) h = absurd (omega arith)
bit_and-power (suc w) zero x h =
    omega (arith, bit_and_step x 1, bit_and-zero w (x / 2) (omega (arith, two_pow_suc w)))
bit_and-power (suc w) (suc k) x h =
    rw (div_two_pow_suc k x, two_pow_suc k, bit_and_step x (2 * 2 ^ k), half_double (2 ^ k))
      (omega (arith, bit_and-power w k (x / 2) (omega (arith, two_pow_suc w))))
