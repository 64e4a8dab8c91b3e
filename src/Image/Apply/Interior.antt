-- ===== src/Image/Apply/Interior.antt =====
-- FilterMain.cpp: the colours that `applyFilter` writes, and where it writes them.
use computer_systems_labs.Base.{
  ℕ, zero, suc, ◌+◌, ◌-◌, ◌≤◌, ◌<◌, ◌≡◌, ◌≢◌, ◌⊎◌, inl, inr, refl, ap, ◌∙◌, true, Bool-cases, some,
  ◌==◌, arith, word_mod, sign_bit,
}
use computer_systems_labs.Image.{Image, color_red, color_green, color_blue, store}
use computer_systems_labs.Image.Filter.{Filter, get}
use computer_systems_labs.Image.Apply.Sums.{
  plane, limited, filtered_color, sum_one-weighted, scaled-limited,
}
use computer_systems_labs.Image.Apply.{
  Acc, no_acc, add_pixel, sum_one_row, sum_one, store_pixel, one_column,
}

abbrev IsWords : Acc → Type 0
IsWords a = (a.red < word_mod) × (a.green < word_mod) × (a.blue < word_mod)

sum_one_row-IsWords :
    (f : Filter) (input : Image) (row col i left j : ℕ) (a : Acc)
    → IsWords a
    → IsWords (sum_one_row f input row col i left j a)
unfolding sum_one_row add_pixel
sum_one_row-IsWords f input row col i zero j a h = h
sum_one_row-IsWords f input row col i (suc left) j a h =
    sum_one_row-IsWords f input row col i left (j + 1)
      (add_pixel input (row + i - 1) (col + j - 1) (get f i j) a)
      (ground arith, ground arith, ground arith)

sum_one-IsWords :
    (f : Filter) (input : Image) (row col left i : ℕ) (a : Acc)
    → IsWords a
    → IsWords (sum_one f input row col left i a)
unfolding sum_one
sum_one-IsWords f input row col zero i a h = h
sum_one-IsWords f input row col (suc left) i a h =
    sum_one-IsWords f input row col left (i + 1) (sum_one_row f input row col i f.dim 0 a)
      (sum_one_row-IsWords f input row col i f.dim 0 a h)

-- What the writes to one row leave: the colours of the columns from `lo` to `hi`, and everything else.
pub record Wrote (f : Filter) (input : Image) (row lo hi : ℕ) (out res : Image) : Type 0 where
  pub colors :
      (p c : ℕ) → p < 3 → lo ≤ c → c < hi → res.color p row c ≡ filtered_color f input p row c
  pub kept : (p r c : ℕ) → (r ≢ row) ⊎ (c < lo) ⊎ (hi ≤ c) → res.color p r c ≡ out.color p r c

-- The three stores, read at one plane.
stored :
    (g : ℕ → ℕ) (a : Acc) (out : Image) (p row col : ℕ)
    → p < 3
    → (store color_blue row col
          (g a.blue)
          (store color_green row col (g a.green) (store color_red row col (g a.red) out))).color
        p row col
      ≡ g (plane p a)
unfolding store
stored g a out p row col h = elim (Bool-cases (p == color_red)) [
  | inl red ↦
      let same : p ≡ 0 = ground (arith, red) in
      let row_self : (row == row) ≡ true = ground arith in
      let col_self : (col == col) ≡ true = ground arith in rw (same, row_self, col_self) refl
  | inr not_red ↦ elim (Bool-cases (p == color_green)) [
    | inl green ↦
        let same : p ≡ 1 = ground (arith, green) in
        let row_self : (row == row) ≡ true = ground arith in
        let col_self : (col == col) ≡ true = ground arith in rw (same, row_self, col_self) refl
    | inr not_green ↦
        let same : p ≡ 2 = ground (arith, h, not_red, not_green) in
        let row_self : (row == row) ≡ true = ground arith in
        let col_self : (col == col) ≡ true = ground arith in rw (same, row_self, col_self) refl
  ]
]

pub one_column-Wrote :
    (f : Filter) (input : Image) (row col : ℕ) (out : Image)
    → 0 < f.divisor
    → f.divisor < sign_bit
    → (res : Image) × (one_column f input row col out ≡ some res)
      × Wrote f input row col (col + 1) out res
unfolding one_column store_pixel store
one_column-Wrote f input row col out hd hs =
    let a = sum_one f input row col f.dim 0 no_acc in
    let words =
      sum_one-IsWords f input row col f.dim 0 no_acc (ground arith, ground arith, ground arith) in
    let red_of = scaled-limited f a.red hd hs words.0 in
    let green_of = scaled-limited f a.green hd hs words.1 in
    let blue_of = scaled-limited f a.blue hd hs words.2 in
    let g = limited f.divisor in
    (
      store color_blue row col (g a.blue)
          (store color_green row col (g a.green) (store color_red row col (g a.red) out)),
      rw (red_of, green_of, blue_of) refl,
      record {
        colors = λ p c plane_p from upto.
            let here : c ≡ col = omega arith in
            rw (here) (
              stored g a out p row col plane_p ∙ ap g (sum_one-weighted f input p row col plane_p));
        kept = λ p r c away. ground (arith, away);
      },
    )
