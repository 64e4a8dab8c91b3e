-- ===== src/Datalab/Harness/Laws.antt =====
-- btest.c: what the harness has established of a puzzle that it finds without an error.
use computer_systems_labs.Base.{
  ℕ, zero, suc, ◌<◌, ◌+◌, ◌≡◌, ◌↔◌, refl, false, Option, none, some, List, [], ◌∷◌, ◌==◌, ◌&&◌, ◌≤◌,
  word_mod, bias, ap, ◌∙◌, All, arith,
}
use computer_systems_labs.Datalab.Harness.{
  TestRec, test_args, until_error, count_errors, test_function, arg_vals, arg_test_range,
  max_test_vals, test_range_max,
}
use computer_systems_labs.Datalab.Harness.Values.{consecutive, gen_vals-exhaustive}

-- A loop ends without an error exactly when no round leaves one.
until_error-zero :
    (body : ℕ → ℕ → ℕ) (xs : List ℕ) → (until_error body xs 0 ≡ 0) ↔ All (λ x. body x 0 ≡ 0) xs
unfolding until_error
until_error-zero body [] = (λ _. tt, λ _. refl)
until_error-zero body (x ∷ xs) = ground (arith, until_error-zero body xs)

-- Whether the puzzle and its test function agree on the values that it takes.
abbrev pub Agrees : TestRec → List ℕ → Type 0
Agrees t xs = t.solution_funct xs ≡ t.test_funct xs

test_args-zero : (t : TestRec) (xs : List ℕ) → (0 + test_args t xs ≡ 0) ↔ Agrees t xs
unfolding test_args
test_args-zero t xs = ground arith

-- The predicates at two places are the same, so they hold of the same lists.
pointwise_iff : (P Q : ℕ → Type 0) (xs : List ℕ) → ((x : ℕ) → P x ↔ Q x) → All P xs ↔ All Q xs
pointwise_iff P Q [] h = (λ u. u, λ u. u)
pointwise_iff P Q (x ∷ xs) h =
    let rest = pointwise_iff P Q xs h in
    (λ a. ((h x).0 a.0, rest.0 a.1), λ a. ((h x).1 a.0, rest.1 a.1))

loop_iff :
    (body : ℕ → ℕ → ℕ) (Q : ℕ → Type 0) (xs : List ℕ)
    → ((x : ℕ) → (body x 0 ≡ 0) ↔ Q x)
    → (until_error body xs 0 ≡ 0) ↔ All Q xs
loop_iff body Q xs h =
    let loop = until_error-zero body xs in
    let each = pointwise_iff (λ x. body x 0 ≡ 0) Q xs h in
    (λ e. each.0 (loop.0 e), λ a. loop.1 (each.1 a))

-- The two functions agree on every combination of values for the arguments that they take.
abbrev pub AgreesOn : ℕ → TestRec → List ℕ → List ℕ → List ℕ → Type 0
AgreesOn zero t xs ys zs = Agrees t []
AgreesOn (suc zero) t xs ys zs = All (λ a. Agrees t (a ∷ [])) xs
AgreesOn (suc (suc zero)) t xs ys zs = All (λ a. All (λ b. Agrees t (a ∷ b ∷ [])) ys) xs
AgreesOn (suc (suc (suc n))) t xs ys zs =
    All (λ a. All (λ b. All (λ c. Agrees t (a ∷ b ∷ c ∷ [])) zs) ys) xs

-- For a puzzle of one, two or three arguments no error is counted exactly when it agrees with its
-- test function on every combination of the test values: the loops skip none of them.
pub count_errors_lem :
    (n : ℕ) (t : TestRec) (xs ys zs : List ℕ)
    → n < 3
    → (count_errors (suc n) t xs ys zs ≡ 0) ↔ AgreesOn (suc n) t xs ys zs
unfolding count_errors
count_errors_lem zero t xs ys zs few =
    loop_iff (λ a e1. e1 + test_args t (a ∷ [])) (λ a. Agrees t (a ∷ [])) xs
      (λ a. test_args-zero t (a ∷ []))
count_errors_lem (suc zero) t xs ys zs few =
    loop_iff (λ a e1. until_error (λ b e2. e2 + test_args t (a ∷ b ∷ [])) ys e1)
      (λ a. All (λ b. Agrees t (a ∷ b ∷ [])) ys) xs
      (λ a.
        loop_iff (λ b e2. e2 + test_args t (a ∷ b ∷ [])) (λ b. Agrees t (a ∷ b ∷ [])) ys
          (λ b. test_args-zero t (a ∷ b ∷ [])))
count_errors_lem (suc (suc zero)) t xs ys zs few =
    loop_iff
      (λ a e1.
        until_error (λ b e2. until_error (λ c e3. e3 + test_args t (a ∷ b ∷ c ∷ [])) zs e2) ys e1)
      (λ a. All (λ b. All (λ c. Agrees t (a ∷ b ∷ c ∷ [])) zs) ys) xs
      (λ a.
        loop_iff (λ b e2. until_error (λ c e3. e3 + test_args t (a ∷ b ∷ c ∷ [])) zs e2)
          (λ b. All (λ c. Agrees t (a ∷ b ∷ c ∷ [])) zs) ys
          (λ b.
            loop_iff (λ c e3. e3 + test_args t (a ∷ b ∷ c ∷ [])) (λ c. Agrees t (a ∷ b ∷ c ∷ [])) zs
              (λ c. test_args-zero t (a ∷ b ∷ c ∷ []))))
count_errors_lem (suc (suc (suc n))) t xs ys zs few = absurd (omega arith)

-- On a puzzle of one argument whose range is tested exhaustively, and with no value from the command
-- line, no error is reported exactly when the puzzle agrees with its test function on the whole range.
pub test_function_lem :
    (random : ℕ → ℕ → ℕ) (given : ℕ → Option ℕ) (sqrt cbrt n : ℕ) (t : TestRec)
    → t.args ≡ 1
    → given 0 ≡ none
    → t.min 0 < word_mod
    → t.max 0 < word_mod
    → ((t.min 0 == 1 && t.max 0 == 1) ≡ false)
    → bias (t.min 0) + n ≡ bias (t.max 0) + 1
    → bias (t.max 0) < 0xffff_ffff
    → max_test_vals ≤ bias (t.max 0)
    → n ≤ max_test_vals
    → (test_function random given sqrt cbrt t ≡ some 0)
      ↔ All (λ a. Agrees t (a ∷ [])) (consecutive (t.min 0) n)
unfolding test_function arg_vals arg_test_range
test_function_lem random given sqrt cbrt n t one none_given hmin hmax ints e top low small =
    let vals =
      gen_vals-exhaustive (random 0) (t.min 0) (t.max 0) test_range_max n hmin hmax ints e top low
        (omega arith) in
    let iff = count_errors_lem 0 t (consecutive (t.min 0) n) [] [] (omega arith) in
    let run : test_function random given sqrt cbrt t
        ≡ some (count_errors 1 t (consecutive (t.min 0) n) [] []) =
      simp (one, none_given, vals) refl in
    (λ h. iff.0 (ground (arith, run, h)), λ a. run ∙ ap some (iff.1 a))
