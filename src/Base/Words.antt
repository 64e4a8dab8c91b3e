-- ===== src/Base/Words.antt =====
-- C integers of 32 bits as bit patterns below 2 ^ 32, with their wrap-around written out.
-- An `int` and an `unsigned` are the same pattern; `signed32` is the number an `int` stands for.
use mathlib.Core.Bool.{Bool}
use Prim.Native.Nat.{ℕ, suc, ◌+◌, ◌-◌, ◌*◌, ◌/◌, ◌%◌, ◌^◌}
use computer_systems_labs.Base.Tests.{ltb, leb, ◌==◌, if◌then◌else◌}

abbrev pub word_mod : ℕ
word_mod = 0x1_0000_0000

abbrev pub word_max : ℕ
word_max = 0xffff_ffff

abbrev pub sign_bit : ℕ
sign_bit = 0x8000_0000

-- `a + b`, `~a`, `-a`
abbrev pub add32 : ℕ → ℕ → ℕ
add32 a b = (a + b) % word_mod

abbrev pub not32 : ℕ → ℕ
not32 a = word_max - a

abbrev pub neg32 : ℕ → ℕ
neg32 a = (word_mod - a) % word_mod

-- `a << k`
abbrev pub shl32 : ℕ → ℕ → ℕ
shl32 a k = a * 2 ^ k % word_mod

-- `a >> k` on an `int`: the sign bit is copied in from the left.
abbrev pub sar32 : ℕ → ℕ → ℕ
sar32 a k = if ltb a sign_bit then a / 2 ^ k else word_max - (word_max - a) / 2 ^ k

-- `x <= y` and `x - y` on `int` values; adding the sign bit makes their order that of the numbers.
abbrev pub bias : ℕ → ℕ
bias x = (x + sign_bit) % word_mod

abbrev pub le_int : ℕ → ℕ → Bool
le_int x y = leb (bias x) (bias y)

abbrev pub sub32 : ℕ → ℕ → ℕ
sub32 x y = add32 x (neg32 y)

-- `!a`
abbrev pub lnot32 : ℕ → ℕ
lnot32 a = if a == 0 then 1 else 0

-- `a < 0` and `a / d` on an `int`, for a divisor `d` that is a positive numeral.
abbrev pub sdiv32 : ℕ → ℕ → ℕ
sdiv32 a d = if ltb a sign_bit then a / d else neg32 ((word_mod - a) / d)

-- `negsuc n` is -(n + 1).
pub data ℤ : Type 0 where
  pos : ℕ → ℤ
  negsuc : ℕ → ℤ

abbrev pub signed32 : ℕ → ℤ
signed32 a = if ltb a sign_bit then pos a else negsuc (word_max - a)

-- Products by a natural number, quotients that round towards zero, and the cast to `int`.
abbrev pub scale : ℕ → ℤ → ℤ
scale k (pos n) = pos (k * n)
scale k (negsuc n) = if k == 0 then pos 0 else negsuc (k * suc n - 1)

abbrev pub quot : ℤ → ℕ → ℤ
quot (pos n) d = pos (n / d)
quot (negsuc n) d = if ltb n (d - 1) then pos 0 else negsuc (suc n / d - 1)

abbrev pub int32 : ℤ → ℕ
int32 (pos n) = n % word_mod
int32 (negsuc n) = word_max - n % word_mod
