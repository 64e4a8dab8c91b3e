-- ===== src/Image/Filter.antt =====
-- Filter.cpp: the class Filter; FilterMain.cpp: `readFilter` on the numbers of a file.
pub mod Printed
use computer_systems_labs.Base.{
  ℕ, zero, suc, ◌+◌, ◌*◌, Option, none, some, List, [], ◌∷◌, ◌==◌, if◌then◌else◌, ◌>>=◌,
}

pub record Filter : Type 0 where
  pub divisor : ℕ
  pub dim : ℕ
  pub data_at : ℕ → ℕ

-- `new int[dim * dim]` has some content.
unfoldable pub new_filter : ℕ → (ℕ → ℕ) → Filter
new_filter dim fresh = record { divisor = 1; dim = dim; data_at = fresh }

unfoldable pub get : Filter → ℕ → ℕ → ℕ
get f r c = f.data_at (r * f.dim + c)

unfoldable pub set : ℕ → ℕ → ℕ → Filter → Filter
set r c value f = record f { data_at = λ k. if k == r * f.dim + c then value else f.data_at k }

unfoldable pub set_divisor : ℕ → Filter → Filter
set_divisor value f = record f { divisor = value }

-- The loops over `j` and `i`, with the rounds left. `none` means that a number is missing, where the
-- program goes on with one that is not initialised.
unfoldable pub read_row : ℕ → ℕ → ℕ → List ℕ → Filter → Option (List ℕ × Filter)
read_row i zero j input f = some (input, f)
read_row i (suc left) j [] f = none
read_row i (suc left) j (value ∷ input) f = read_row i left (j + 1) input (set i j value f)

unfoldable pub read_rows : ℕ → ℕ → List ℕ → Filter → Option Filter
read_rows zero i input f = some f
read_rows (suc left) i input f = do
  (rest, f1) ← read_row i f.dim 0 input f
  read_rows left (i + 1) rest f1

unfoldable pub read_filter : (ℕ → ℕ) → List ℕ → Option Filter
read_filter fresh [] = none
read_filter fresh (size ∷ []) = none
read_filter fresh (size ∷ div ∷ input) =
    read_rows size 0 input (set_divisor div (new_filter size fresh))
