-- ===== src/Shell/Control/Numbers.antt =====
-- The numbers that `do_bgfg` of tsh.cc reads from its argument: `isdigit` and `atoi` of the C library.
use computer_systems_labs.Base.{
  ℕ, ◌+◌, ◌-◌, ◌*◌, ◌%◌, ◌^◌, Bool, ◌&&◌, ◌||◌, List, [], ◌∷◌, leb, ◌==◌, if◌then◌else◌,
}

abbrev pub is_digit : ℕ → Bool
is_digit c = leb b'0' c && leb c b'9'

abbrev pub is_space : ℕ → Bool
is_space c = c == b' ' || leb 9 c && leb c 13

-- The digits at the front, after a value. Beyond the range of an `int`, which C leaves open, the low
-- 32 bits are kept.
unfoldable pub digits_value : List ℕ → ℕ → ℕ
digits_value [] value = value
digits_value (c ∷ s) value =
    if is_digit c then digits_value s ((10 * value + (c - b'0')) % 2 ^ 32) else value

unfoldable pub atoi : List ℕ → ℕ
atoi [] = 0
atoi (c ∷ s) =
    let spaced = atoi s in
    if is_space c
    then spaced
    else if c == b'-'
    then (2 ^ 32 - digits_value s 0) % 2 ^ 32
    else if c == b'+'
    then digits_value s 0
    else digits_value (c ∷ s) 0
