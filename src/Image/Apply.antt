-- ===== src/Image/Apply.antt =====
-- FilterMain.cpp: `applyFilter`, two columns a round. A colour and a sum are `int` values, and a sum
-- that overflows wraps around. The loop at the end of .ipynb_checkpoints/FilterMain-checkpoint.cpp is the
-- same with one column a round. `none` is a trapping division.
pub mod Unrolled
pub mod Sums
pub mod Interior
pub mod Written
use computer_systems_labs.Base.{
  ℕ, zero, suc, ◌+◌, ◌-◌, ◌*◌, ◌/◌, ◌%◌, Bool, true, false, not, ◌&&◌, ◌||◌, Option, none, some,
  ltb, leb, ◌==◌, if◌then◌else◌, ◌>>=◌, word_mod, word_max, sign_bit, add32, neg32, le_int,
}
use computer_systems_labs.Image.{Image, color_red, color_green, color_blue, store}
use computer_systems_labs.Image.Filter.{Filter, get}

-- `accRed`, `accGreen` and `accBlue`
pub record Acc : Type 0 where
  pub red : ℕ
  pub green : ℕ
  pub blue : ℕ

abbrev pub no_acc : Acc
no_acc = record { red = 0; green = 0; blue = 0 }

abbrev pub mul32 : ℕ → ℕ → ℕ
mul32 a b = a * b % word_mod

-- A pixel times the filter's number is added to each colour.
unfoldable pub add_pixel : Image → ℕ → ℕ → ℕ → Acc → Acc
add_pixel input r c value a = record {
  red = add32 a.red (mul32 (input.color color_red r c) value);
  green = add32 a.green (mul32 (input.color color_green r c) value);
  blue = add32 a.blue (mul32 (input.color color_blue r c) value);
}

-- The loops over `j` and `i` with the sums of two columns, and the rounds left.
unfoldable pub sum_pair_row : Filter → Image → ℕ → ℕ → ℕ → ℕ → ℕ → Acc × Acc → Acc × Acc
sum_pair_row f input row col i zero j accs = accs
sum_pair_row f input row col i (suc left) j (a1, a2) = sum_pair_row f input row col i left (j + 1) (
  add_pixel input (row + i - 1) (col + j - 1) (get f i j) a1,
  add_pixel input (row + i - 1) (col + j) (get f i j) a2,
)

unfoldable pub sum_pair : Filter → Image → ℕ → ℕ → ℕ → ℕ → Acc × Acc → Acc × Acc
sum_pair f input row col zero i accs = accs
sum_pair f input row col (suc left) i accs =
    sum_pair f input row col left (i + 1) (sum_pair_row f input row col i f.dim 0 accs)

-- The loops of the checkpoint with the sums of one column.
unfoldable pub sum_one_row : Filter → Image → ℕ → ℕ → ℕ → ℕ → ℕ → Acc → Acc
sum_one_row f input row col i zero j a = a
sum_one_row f input row col i (suc left) j a =
    sum_one_row f input row col i left (j + 1)
      (add_pixel input (row + i - 1) (col + j - 1) (get f i j) a)

unfoldable pub sum_one : Filter → Image → ℕ → ℕ → ℕ → ℕ → Acc → Acc
sum_one f input row col zero i a = a
sum_one f input row col (suc left) i a =
    sum_one f input row col left (i + 1) (sum_one_row f input row col i f.dim 0 a)

abbrev pub magnitude : ℕ → ℕ
magnitude a = if ltb a sign_bit then a else word_mod - a

-- `a / b` on `int` values, which traps for 0 and for a quotient that is no `int`.
unfoldable pub div_int : ℕ → ℕ → Option ℕ
div_int a b =
    let q = magnitude a / magnitude b in
    if b == 0 || a == sign_bit && b == word_max
    then none
    else if ltb a sign_bit
    then some (if ltb b sign_bit then q else neg32 q)
    else some (if ltb b sign_bit then neg32 q else q)

-- `if (acc < 0) acc = 0; if (acc > 255) acc = 255;`
unfoldable pub clamp : ℕ → ℕ
clamp acc = let low = if le_int 0 acc then acc else 0 in if le_int low 255 then low else 255

unfoldable pub scaled : Filter → ℕ → Option ℕ
scaled f acc = do quotient ← div_int acc f.divisor; some (clamp quotient)

-- The three colours of a pixel; a trap ends the program before its output counts.
unfoldable pub store_pixel : Filter → ℕ → ℕ → Acc → Image → Option Image
store_pixel f row col a out = do
  red ← scaled f a.red
  green ← scaled f a.green
  blue ← scaled f a.blue
  some (
      store color_blue row col blue
        (store color_green row col green (store color_red row col red out)))

unfoldable pub two_columns : Filter → Image → ℕ → ℕ → Image → Option Image
two_columns f input row col out = do
  let (a1, a2) = sum_pair f input row col f.dim 0 (no_acc, no_acc)
  out1 ← store_pixel f row col a1 out
  store_pixel f row (col + 1) a2 out1

unfoldable pub one_column : Filter → Image → ℕ → ℕ → Image → Option Image
one_column f input row col out = store_pixel f row col (sum_one f input row col f.dim 0 no_acc) out

-- `for(int col = 1; col < width - 1; col += 2)`, with the columns that are left.
unfoldable pub columns_by_two : Filter → Image → ℕ → ℕ → ℕ → Image → Option Image
columns_by_two f input row zero col out = some out
columns_by_two f input row (suc zero) col out = two_columns f input row col out
columns_by_two f input row (suc (suc left)) col out = do
  out1 ← two_columns f input row col out
  columns_by_two f input row left (col + 2) out1

unfoldable pub columns_by_one : Filter → Image → ℕ → ℕ → ℕ → Image → Option Image
columns_by_one f input row zero col out = some out
columns_by_one f input row (suc left) col out = do
  out1 ← one_column f input row col out
  columns_by_one f input row left (col + 1) out1

unfoldable pub rows_by_two : Filter → Image → ℕ → ℕ → Image → Option Image
rows_by_two f input zero row out = some out
rows_by_two f input (suc left) row out = do
  out1 ← columns_by_two f input row (input.width - 2) 1 out
  rows_by_two f input left (row + 1) out1

unfoldable pub rows_by_one : Filter → Image → ℕ → ℕ → Image → Option Image
rows_by_one f input zero row out = some out
rows_by_one f input (suc left) row out = do
  out1 ← columns_by_one f input row (input.width - 2) 1 out
  rows_by_one f input left (row + 1) out1

abbrev pub sized_as : Image → Image → Image
sized_as input out = record out { width = input.width; height = input.height }

unfoldable pub apply_filter : Filter → Image → Image → Option Image
apply_filter f input out = rows_by_two f input (input.height - 2) 1 (sized_as input out)

unfoldable pub apply_by_one : Filter → Image → Image → Option Image
apply_by_one f input out = rows_by_one f input (input.height - 2) 1 (sized_as input out)
