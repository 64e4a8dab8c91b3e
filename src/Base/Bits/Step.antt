-- ===== src/Base/Bits/Step.antt =====
-- The lowest bit of `&`, `|` and `^`. The native operations stand for a walk over binary digits
-- that is bounded by its first argument; a larger bound gives the same digits.
use Prim.Native.Nat.{ℕ, zero, suc, ◌+◌, ◌*◌, ◌/◌, ◌%◌, ◌≤◌, ◌<◌, min, max, bit_and, bit_or, bit_xor}
use Prim.Native.Nat.{digits, bitwise, differ, bit_and-bitwise, bit_or-bitwise, bit_xor-bitwise}
use mathlib.Core.Path.{◌≡◌, refl}
use native.Mathlib.Omega.{arith}
use native.Mathlib.Nat.{le_refl}

module _ (rest : ℕ → ℕ) (op : ℕ → ℕ → ℕ) where
  bound_irrelevant : (x y p q : ℕ) → x ≤ p → x ≤ q → digits rest op p x y ≡ digits rest op q x y
  bound_irrelevant x y zero zero hp hq = refl
  bound_irrelevant zero y zero (suc q) hp hq = refl
  bound_irrelevant zero y (suc p) zero hp hq = refl
  bound_irrelevant zero y (suc p) (suc q) hp hq = refl
  bound_irrelevant (suc x) y zero (suc q) hp hq = absurd (omega arith)
  bound_irrelevant (suc x) y (suc p) zero hp hq = absurd (omega arith)
  bound_irrelevant (suc x) y (suc p) (suc q) hp hq =
      let halved = bound_irrelevant (suc x / 2) (y / 2) p q (omega arith) (omega arith) in rw halved

  lowest :
      (x y : ℕ)
      → bitwise rest op (suc x) y ≡ op (suc x % 2) (y % 2) + 2 * bitwise rest op (suc x / 2) (y / 2)
  lowest x y =
      let halved = bound_irrelevant (suc x / 2) (y / 2) x (suc x / 2) (omega arith) (le_refl _) in
      omega (arith, halved)

pub bit_and_step : (x y : ℕ) → bit_and x y ≡ min (x % 2) (y % 2) + 2 * bit_and (x / 2) (y / 2)
bit_and_step zero y = rw (bit_and-bitwise 0 y, bit_and-bitwise 0 (y / 2)) (omega arith)
bit_and_step (suc x) y =
    rw (bit_and-bitwise (suc x) y, bit_and-bitwise (suc x / 2) (y / 2)) (lowest _ min x y)

pub bit_or_step : (x y : ℕ) → bit_or x y ≡ max (x % 2) (y % 2) + 2 * bit_or (x / 2) (y / 2)
bit_or_step zero y = omega (arith, bit_or-bitwise 0 y, bit_or-bitwise 0 (y / 2))
bit_or_step (suc x) y =
    rw (bit_or-bitwise (suc x) y, bit_or-bitwise (suc x / 2) (y / 2)) (lowest _ max x y)

differ_digits : (a b : ℕ) → a < 2 → b < 2 → differ a b ≡ (a + b) % 2
differ_digits zero b ha hb = omega arith
differ_digits (suc zero) zero ha hb = refl
differ_digits (suc zero) (suc zero) ha hb = refl
differ_digits (suc zero) (suc (suc b)) ha hb = absurd (omega arith)
differ_digits (suc (suc a)) b ha hb = absurd (omega arith)

differ_mod : (x y : ℕ) → differ (x % 2) (y % 2) ≡ (x + y) % 2
differ_mod x y = omega (arith, differ_digits (x % 2) (y % 2) (omega arith) (omega arith))

pub bit_xor_step : (x y : ℕ) → bit_xor x y ≡ (x + y) % 2 + 2 * bit_xor (x / 2) (y / 2)
bit_xor_step zero y = omega (arith, bit_xor-bitwise 0 y, bit_xor-bitwise 0 (y / 2))
bit_xor_step (suc x) y =
    rw (← differ_mod (suc x) y, bit_xor-bitwise (suc x) y, bit_xor-bitwise (suc x / 2) (y / 2))
      (lowest _ differ x y)

-- Zero on the left, where no digit is left to walk over.
pub zero-bit_and : (y : ℕ) → bit_and 0 y ≡ 0
zero-bit_and y = bit_and-bitwise 0 y

pub zero-bit_or : (y : ℕ) → bit_or 0 y ≡ y
zero-bit_or y = bit_or-bitwise 0 y

pub zero-bit_xor : (y : ℕ) → bit_xor 0 y ≡ y
zero-bit_xor y = bit_xor-bitwise 0 y
