-- ===== src/Datalab/Harness/Values.antt =====
-- btest.c: how many test values `gen_vals` stores, and which.
use computer_systems_labs.Base.{
  ℕ, zero, suc, ◌+◌, ◌-◌, ◌*◌, ◌≤◌, ◌<◌, ◌≡◌, ◌⊎◌, inl, inr, refl, ap, false, ◌&&◌, Option, none,
  some, Bool-cases, List, [], ◌∷◌, ltb, leb, ◌==◌, if◌then◌else◌, length, add32, arith, word_mod,
  bias, le_int, sub32,
}
use computer_systems_labs.Datalab.Harness.{
  max_test_vals, test_range_max, float_vals, float_round, exhaustive_vals, sample_vals,
  sample_round, gen_vals,
}

length-float_vals : (left i : ℕ) → length (float_vals left i) ≡ 12 * left + 4
unfolding float_vals float_round
length-float_vals zero i = refl
length-float_vals (suc left) i = omega (arith, length-float_vals left (i + 1))

length-sample_vals :
    (random : ℕ → ℕ) (min max left i : ℕ) → length (sample_vals random min max left i) ≤ 5 * left
unfolding sample_vals sample_round
length-sample_vals random min max zero i = omega arith
length-sample_vals random min max (suc left) i =
    ground (arith, length-sample_vals random min max left (i + 1))

-- The `n` values from `i` on.
unfoldable pub consecutive : ℕ → ℕ → List ℕ
consecutive i zero = []
consecutive i (suc n) = i ∷ consecutive (add32 i 1) n

length-consecutive : (i n : ℕ) → length (consecutive i n) ≡ n
unfolding consecutive
length-consecutive i zero = refl
length-consecutive i (suc n) = ap suc (length-consecutive (add32 i 1) n)

-- Before `max`, which is not the largest `int`, the loop ends and stores each value once.
exhaustive_vals-eq-consecutive :
    (fuel n i max : ℕ)
    → i < word_mod
    → max < word_mod
    → bias i + n ≡ bias max + 1
    → bias max < 0xffff_ffff
    → n < fuel
    → exhaustive_vals fuel i max ≡ some (consecutive i n)
unfolding exhaustive_vals consecutive
exhaustive_vals-eq-consecutive zero n i max hi hm le top enough = absurd (omega arith)
exhaustive_vals-eq-consecutive (suc fuel) zero i max hi hm le top enough = ground arith
exhaustive_vals-eq-consecutive (suc fuel) (suc n) i max hi hm le top enough =
    let next : bias (add32 i 1) + n ≡ bias max + 1 = omega arith in
    rw
      (exhaustive_vals-eq-consecutive fuel n (add32 i 1) max (omega arith) hm next top
        (omega arith))
      (ground arith)

-- A range of at most as many values as fit the array, which does not end with the largest `int`, is
-- tested exhaustively: the values are `min`, `min + 1` and so on up to `max`, each once.
pub gen_vals-exhaustive :
    (random : ℕ → ℕ) (min max test_range n : ℕ)
    → min < word_mod
    → max < word_mod
    → ((min == 1 && max == 1) ≡ false)
    → bias min + n ≡ bias max + 1
    → bias max < 0xffff_ffff
    → max_test_vals ≤ bias max
    → n ≤ max_test_vals + 1
    → gen_vals random none min max test_range ≡ some (consecutive min n)
unfolding gen_vals
gen_vals-exhaustive random min max test_range n hmin hmax ints e top low small =
    let loop =
      exhaustive_vals-eq-consecutive (max_test_vals + 2) n min max hmin hmax e top (omega arith) in
    rw ints (ground (arith, loop))

-- Without a value from the command line, a range from `min` above 0 to `min + max_test_vals`, below the
-- largest `int`, is taken for small: `gen_vals` ends and stores one value more than the array of
-- `max_test_vals` places has room for.
pub gen_vals-overflow :
    (random : ℕ → ℕ) (min test_range : ℕ)
    → 0 < min
    → min + max_test_vals < 0x7fff_ffff
    → (xs : List ℕ) × (gen_vals random none min (min + max_test_vals) test_range ≡ some xs)
      × (length xs ≡ max_test_vals + 1)
gen_vals-overflow random min test_range pos top = (
  consecutive min (max_test_vals + 1),
  gen_vals-exhaustive random min (min + max_test_vals) test_range (max_test_vals + 1) (omega arith)
      (omega arith) (ground arith) (omega arith) (omega arith) (omega arith) (omega arith),
  length-consecutive min (max_test_vals + 1),
)

nothing_left : (fuel i max : ℕ) → le_int i max ≡ false → exhaustive_vals (suc fuel) i max ≡ some []
unfolding exhaustive_vals
nothing_left fuel i max h = rw h refl

-- A range that leaves the array at least one place free.
small_range :
    (min max : ℕ)
    → min < word_mod
    → max < word_mod
    → bias max < 0xffff_ffff
    → bias max < bias min + max_test_vals
    → (xs : List ℕ) × (exhaustive_vals (max_test_vals + 2) min max ≡ some xs)
      × (length xs ≤ max_test_vals)
small_range min max hmin hmax top small = elim (Bool-cases (leb (bias min) (bias max))) [
  | inr empty ↦ ([], nothing_left (max_test_vals + 1) min max empty, omega arith)
  | inl some_left ↦
      let n = bias max + 1 - bias min in
      let there : n + bias min ≡ bias max + 1 = ground (arith, some_left) in
      (
        consecutive min n,
        exhaustive_vals-eq-consecutive (max_test_vals + 2) n min max hmin hmax (omega arith) top
            (omega arith),
        omega (arith, length-consecutive min n),
      )
]

-- Where `max` exceeds `min` by more than `max_test_vals`, or by less and is not the largest `int`, with
-- any value from the command line or none and a `test_range` of at most TEST_RANGE, `gen_vals` ends, and
-- what it stores fits the array of `max_test_vals` places.
pub length-gen_vals :
    (random : ℕ → ℕ) (given : Option ℕ) (min max test_range : ℕ)
    → min < word_mod
    → max < word_mod
    → test_range ≤ test_range_max
    → (bias min + max_test_vals < bias max)
      ⊎ (bias max < 0xffff_ffff) × (bias max < bias min + max_test_vals)
    → (xs : List ℕ) × (gen_vals random given min max test_range ≡ some xs)
      × (length xs ≤ max_test_vals)
unfolding gen_vals
length-gen_vals random (some value) min max test_range hmin hmax few range =
    (value ∷ [], refl, omega arith)
length-gen_vals random none min max test_range hmin hmax few range =
    elim (Bool-cases (min == 1 && max == 1)) [
      | inl float ↦
          let r = if ltb 0x0080_0000 test_range then 0x0080_0000 else test_range in
          (float_vals r 0, rw float refl, ground (arith, length-float_vals r 0))
      | inr ints ↦ elim range [
        | inl large ↦ (
          sample_vals random min max test_range 0,
          rw ints (ground (arith, large)),
          omega (arith, length-sample_vals random min max test_range 0),
        )
        | inr (top, small) ↦
            let (xs, loop, fits) = small_range min max hmin hmax top small in
            elim (Bool-cases (le_int (sub32 max max_test_vals) min)) [
              | inl exhaust ↦ (xs, rw (ints, exhaust) loop, fits)
              | inr sample ↦ (
                sample_vals random min max test_range 0,
                rw (ints, sample) refl,
                omega (arith, length-sample_vals random min max test_range 0),
              )
            ]
      ]
    ]
