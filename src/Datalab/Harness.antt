-- ===== src/Datalab/Harness.antt =====
-- lab1-datalab/btest.c: the values that a puzzle is tested on, and the loops that compare it with
-- its test function. A puzzle takes the list of its arguments. What `random_val` returns in round
-- `i`, made from `rand`, is the parameter `random`, and the roots that `pow` gives are parameters
-- of `test_function`. Messages and the timeout are left out.
pub mod Values
pub mod Laws
use computer_systems_labs.Base.{
  ℕ, zero, suc, ◌+◌, ◌*◌, ◌%◌, bit_or, Bool, true, false, ◌&&◌, Option, none, some, List, [], ◌∷◌,
  ltb, leb, ◌==◌, if◌then◌else◌, ◌>>=◌, add32, neg32, le_int, sub32,
}

abbrev pub test_range_max : ℕ
test_range_max = 500_000

abbrev pub max_test_vals : ℕ
max_test_vals = 13 * test_range_max

-- `if (cond) test_vals[test_count++] = x`, the later values being `xs`
abbrev pub store_if {ℓ} : {A : Type ℓ} → Bool → A → List A → List A
store_if b x xs = if b then x ∷ xs else xs

-- Round `i` of the loop for arguments that are the bits of a `float`: twelve values.
unfoldable pub float_round : ℕ → List ℕ → List ℕ
float_round i xs =
    i
    ∷ bit_or 0x8000_0000 i
    ∷ add32 0x0080_0000 i
    ∷ sub32 0x0080_0000 i
    ∷ bit_or 0x8000_0000 (add32 0x0080_0000 i)
    ∷ bit_or 0x8000_0000 (sub32 0x0080_0000 i)
    ∷ add32 0x3f80_0000 i
    ∷ sub32 0x3f80_0000 i
    ∷ bit_or 0x8000_0000 (add32 0x3f80_0000 i)
    ∷ bit_or 0x8000_0000 (sub32 0x3f80_0000 i)
    ∷ sub32 0x7f00_0000 i
    ∷ bit_or 0x8000_0000 (sub32 0x7f00_0000 i)
    ∷ xs

-- `left` rounds from `i` on, and the special values behind them.
unfoldable pub float_vals : ℕ → ℕ → List ℕ
float_vals zero i = 0x7f80_0000 ∷ 0xff80_0000 ∷ 0x7fc0_0000 ∷ 0xffc0_0000 ∷ []
float_vals (suc left) i = float_round i (float_vals left (i + 1))

-- `for (i = min; i <= max; i++)`; `none` where the fuel runs out.
unfoldable pub exhaustive_vals : ℕ → ℕ → ℕ → Option (List ℕ)
exhaustive_vals zero i max = none
exhaustive_vals (suc fuel) i max =
    let rest = exhaustive_vals fuel (add32 i 1) max in
    if le_int i max then elim rest [ none ↦ none | some xs ↦ some (i ∷ xs) ] else some []

-- Round `i` of the loop that samples a large range.
unfoldable pub sample_round : (ℕ → ℕ) → ℕ → ℕ → ℕ → List ℕ → List ℕ
sample_round random min max i xs =
    add32 min i
    ∷ sub32 max i
    ∷ store_if (le_int min i && le_int i max) i
        (store_if (le_int min (neg32 i) && le_int (neg32 i) max) (neg32 i) (random i ∷ xs))

unfoldable pub sample_vals : (ℕ → ℕ) → ℕ → ℕ → ℕ → ℕ → List ℕ
sample_vals random min max zero i = []
sample_vals random min max (suc left) i =
    sample_round random min max i (sample_vals random min max left (i + 1))

-- `given` is the value of an option -1, -2 or -3. The fuel of the exhaustive case is more than the
-- rounds that a small range needs.
unfoldable pub gen_vals : (ℕ → ℕ) → Option ℕ → ℕ → ℕ → ℕ → Option (List ℕ)
gen_vals random (some value) min max test_range = some (value ∷ [])
gen_vals random none min max test_range =
    if min == 1 && max == 1
    then some (float_vals (if ltb 0x0080_0000 test_range then 0x0080_0000 else test_range) 0)
    else if le_int (sub32 max max_test_vals) min
    then exhaustive_vals (max_test_vals + 2) min max
    else some (sample_vals random min max test_range 0)

pub record TestRec : Type 0 where
  pub solution_funct : List ℕ → ℕ
  pub test_funct : List ℕ → ℕ
  pub args : ℕ
  pub min : ℕ → ℕ
  pub max : ℕ → ℕ

-- `test_0_arg` to `test_3_arg`: the number of errors, 0 or 1.
unfoldable pub test_args : TestRec → List ℕ → ℕ
test_args t xs = if t.solution_funct xs == t.test_funct xs then 0 else 1

-- A loop over test values that ends with the first round that leaves an error.
unfoldable pub until_error : (ℕ → ℕ → ℕ) → List ℕ → ℕ → ℕ
until_error body [] errors = errors
until_error body (x ∷ xs) errors =
    let now = body x errors in if now == 0 then until_error body xs now else now

-- The nested loops over the values `xs`, `ys`, `zs` of the first `args` arguments.
unfoldable pub count_errors : ℕ → TestRec → List ℕ → List ℕ → List ℕ → ℕ
count_errors args t xs ys zs =
    until_error
      (λ a1 e1.
        if args == 1
        then e1 + test_args t (a1 ∷ [])
        else until_error
            (λ a2 e2.
              if args == 2
              then e2 + test_args t (a1 ∷ a2 ∷ [])
              else until_error (λ a3 e3. e3 + test_args t (a1 ∷ a2 ∷ a3 ∷ [])) zs e2)
            ys e1)
      xs 0

-- The range of values for each argument, at least 1.
unfoldable pub arg_test_range : ℕ → ℕ → ℕ → ℕ
arg_test_range sqrt cbrt args =
    let range = if args == 1 then test_range_max else if args == 2 then sqrt else cbrt in
    if ltb range 1 then 1 else range

-- The values for argument `i`, and none for those that the puzzle does not take.
unfoldable pub arg_vals : (ℕ → ℕ → ℕ) → (ℕ → Option ℕ) → ℕ → TestRec → ℕ → Option (List ℕ)
arg_vals random given range t i =
    if ltb i t.args then gen_vals (random i) (given i) (t.min i) (t.max i) range else some []

-- `none` where the number of arguments is refused, or a loop of `gen_vals` does not end.
unfoldable pub test_function : (ℕ → ℕ → ℕ) → (ℕ → Option ℕ) → ℕ → ℕ → TestRec → Option ℕ
test_function random given sqrt cbrt t =
    let range = arg_test_range sqrt cbrt t.args in
    if ltb 3 t.args then none else do
      xs ← arg_vals random given range t 0
      ys ← arg_vals random given range t 1
      zs ← arg_vals random given range t 2
      some (if t.args == 0 then test_args t [] else count_errors t.args t xs ys zs)
