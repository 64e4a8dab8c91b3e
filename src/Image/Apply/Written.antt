-- ===== src/Image/Apply/Written.antt =====
-- FilterMain.cpp: the whole output of `applyFilter`.
use mathlib.Core.Path.{subst}
use computer_systems_labs.Base.{
  ℕ, zero, suc, ◌+◌, ◌-◌, ◌%◌, ◌≤◌, ◌<◌, ◌≡◌, ◌⊎◌, inl, inr, refl, ◌∙◌, Bool-cases, some, ltb, ◌==◌,
  arith, sign_bit,
}
use computer_systems_labs.Image.{Image}
use computer_systems_labs.Image.Filter.{Filter}
use computer_systems_labs.Image.Apply.{
  two_columns, columns_by_two, rows_by_two, sized_as, apply_filter,
}
use computer_systems_labs.Image.Apply.Unrolled.{two_columns-one_column}
use computer_systems_labs.Image.Apply.Interior.{Wrote, one_column-Wrote}
use computer_systems_labs.Image.Apply.Sums.{filtered_color}

Wrote-join :
    (f : Filter) (input : Image) (row lo mid hi : ℕ) (out res res2 : Image)
    → lo ≤ mid
    → mid ≤ hi
    → Wrote f input row lo mid out res
    → Wrote f input row mid hi res res2
    → Wrote f input row lo hi out res2
Wrote-join f input row lo mid hi out res res2 h1 h2 w1 w2 = record {
  colors = λ p c plane_p from upto. elim (Bool-cases (ltb c mid)) [
    | inl before ↦
        w2.kept p row c (inr (inl (ground (arith, before))))
        ∙ w1.colors p c plane_p from (ground (arith, before))
    | inr behind ↦ w2.colors p c plane_p (ground (arith, behind)) upto
  ];
  kept = λ p r c away.
      w2.kept p r c (ground (arith, away, h1)) ∙ w1.kept p r c (ground (arith, away, h2));
}

two_columns-Wrote :
    (f : Filter) (input : Image) (row col : ℕ) (out : Image)
    → 0 < f.divisor
    → f.divisor < sign_bit
    → (res : Image) × (two_columns f input row col out ≡ some res)
      × Wrote f input row col (col + 2) out res
two_columns-Wrote f input row col out hd hs =
    let (res, first, w1) = one_column-Wrote f input row col out hd hs in
    let (res2, second, w2) = one_column-Wrote f input row (col + 1) res hd hs in
    let place : col + 1 + 1 ≡ col + 2 = omega arith in
    let w3 = subst (λ n. Wrote f input row (col + 1) n res res2) place w2 in
    (
      res2,
      rw (two_columns-one_column f input row col out, first, second) refl,
      Wrote-join f input row col (col + 1) (col + 2) out res res2 (omega arith) (omega arith) w1 w3,
    )

columns_by_two-Wrote :
    (f : Filter) (input : Image) (row left col : ℕ) (out : Image)
    → 0 < f.divisor
    → f.divisor < sign_bit
    → (res : Image) × (columns_by_two f input row left col out ≡ some res)
      × Wrote f input row col (col + left + left % 2) out res
unfolding columns_by_two
columns_by_two-Wrote f input row zero col out hd hs = (
  out,
  refl,
  record { colors = λ p c plane_p from upto. absurd (omega arith); kept = λ p r c away. refl },
)
columns_by_two-Wrote f input row (suc zero) col out hd hs =
    let (res, done, w) = two_columns-Wrote f input row col out hd hs in
    let end : col + 2 ≡ col + 1 + 1 % 2 = omega arith in
    (res, done, subst (λ n. Wrote f input row col n out res) end w)
columns_by_two-Wrote f input row (suc (suc left)) col out hd hs =
    let (res, done, w) = two_columns-Wrote f input row col out hd hs in
    let (res2, rest, w2) = columns_by_two-Wrote f input row left (col + 2) res hd hs in
    let end : col + 2 + left + left % 2 ≡ col + suc (suc left) + suc (suc left) % 2 = omega arith in
    let w3 = subst (λ n. Wrote f input row (col + 2) n res res2) end w2 in
    (
      res2,
      rw (done, rest) refl,
      Wrote-join f input row col (col + 2) (col + suc (suc left) + suc (suc left) % 2) out res res2
          (omega arith) (omega arith) w w3,
    )

-- The colours of the rows from `top` to `bottom` and the columns from 1 to `hi`, and everything else.
pub record Filtered (f : Filter) (input : Image) (top bottom hi : ℕ) (out res : Image)
    : Type 0 where
  pub colors :
      (p r c : ℕ)
      → p < 3
      → (top ≤ r) × (r < bottom)
      → (1 ≤ c) × (c < hi)
      → res.color p r c ≡ filtered_color f input p r c
  pub kept :
      (p r c : ℕ)
      → (r < top) ⊎ (bottom ≤ r) ⊎ (c < 1) ⊎ (hi ≤ c)
      → res.color p r c ≡ out.color p r c

rows_by_two-Filtered :
    (f : Filter) (input : Image) (left row : ℕ) (out : Image)
    → 0 < f.divisor
    → f.divisor < sign_bit
    → (res : Image) × (rows_by_two f input left row out ≡ some res)
      × Filtered f input row (row + left) (1 + (input.width - 2) + (input.width - 2) % 2) out res
unfolding rows_by_two
rows_by_two-Filtered f input zero row out hd hs = (
  out,
  refl,
  record { colors = λ p r c plane_p rows cols. absurd (omega arith); kept = λ p r c away. refl },
)
rows_by_two-Filtered f input (suc left) row out hd hs =
    let (res, done, w) = columns_by_two-Wrote f input row (input.width - 2) 1 out hd hs in
    let (res2, rest, more) = rows_by_two-Filtered f input left (row + 1) res hd hs in
    (
      res2,
      rw (done, rest) refl,
      record {
        colors = λ p r c plane_p rows cols. elim (Bool-cases (r == row)) [
          | inl here ↦
              let same : r ≡ row = ground (arith, here) in
              rw (same) (more.kept p row c (inl (omega arith)) ∙ w.colors p c plane_p cols.0 cols.1)
          | inr below ↦
              more.colors p r c plane_p (ground (arith, rows, below), ground (arith, rows)) cols
        ];
        kept = λ p r c away.
            more.kept p r c (ground (arith, away)) ∙ w.kept p r c (ground (arith, away));
      },
    )

-- With a positive divisor applyFilter returns an image. In the rows from 1 to height - 2 and the columns
-- from 1 to width - 2, and in column width - 1 for an odd width, each of the three colours is the sum,
-- over the places of the filter, of the filter's number times the same colour of the input there, taken
-- as an `int`: 0 where that is negative, and otherwise its quotient by the divisor, or 255 if that is
-- less. Every other place of the output is unchanged.
pub apply_filter-Filtered :
    (f : Filter) (input out : Image)
    → 0 < f.divisor
    → f.divisor < sign_bit
    → (res : Image) × (apply_filter f input out ≡ some res)
      × Filtered f input 1
          (1 + (input.height - 2))
          (1 + (input.width - 2) + (input.width - 2) % 2)
          out
          res
unfolding apply_filter
apply_filter-Filtered f input out hd hs =
    let (res, done, filtered) =
      rows_by_two-Filtered f input (input.height - 2) 1 (sized_as input out) hd hs in
    (res, done, record { colors = filtered.colors; kept = filtered.kept })
