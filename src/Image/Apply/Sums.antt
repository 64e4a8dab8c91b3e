-- ===== src/Image/Apply/Sums.antt =====
-- FilterMain.cpp: the colour that the filter gives a pixel, as a sum over the filter's numbers.
use native.Mathlib.Nat.{div-le_self}
use computer_systems_labs.Base.{
  ℕ, zero, suc, ◌+◌, ◌-◌, ◌*◌, ◌/◌, ◌%◌, ◌≤◌, ◌<◌, ◌≡◌, inl, inr, refl, ap, ◌∙◌, true, false,
  Bool-cases, some, ltb, leb, ◌==◌, if◌then◌else◌, arith, word_mod, word_max, sign_bit, add32,
}
use computer_systems_labs.Image.{Image, color_red, color_green}
use computer_systems_labs.Image.Filter.{Filter, get}
use computer_systems_labs.Image.Apply.{
  Acc, no_acc, add_pixel, mul32, sum_one_row, sum_one, div_int, clamp, scaled,
}

abbrev pub plane : ℕ → Acc → ℕ
plane p a = if p == color_red then a.red else if p == color_green then a.green else a.blue

-- The sum of `g` at `n` numbers from `i` on.
abbrev pub sum_from : (ℕ → ℕ) → ℕ → ℕ → ℕ
sum_from g i zero = 0
sum_from g i (suc n) = g i + sum_from g (i + 1) n

-- The colours of plane `p` in the square around row `r` and column `c`, each times the filter's number
-- at its place.
abbrev pub weighted_row : Filter → Image → ℕ → ℕ → ℕ → ℕ → ℕ
weighted_row f input p r c i =
    sum_from (λ j. input.color p (r + i - 1) (c + j - 1) * f.data_at (i * f.dim + j)) 0 f.dim

abbrev pub weighted : Filter → Image → ℕ → ℕ → ℕ → ℕ
weighted f input p r c = sum_from (λ i. weighted_row f input p r c i) 0 f.dim

-- A sum as an `int`, over a positive divisor: 0 where it is negative, and at most 255.
abbrev pub limited : ℕ → ℕ → ℕ
limited divisor acc =
    if ltb acc sign_bit then if leb (acc / divisor) 255 then acc / divisor else 255 else 0

abbrev pub filtered_color : Filter → Image → ℕ → ℕ → ℕ → ℕ
filtered_color f input p r c = limited f.divisor (weighted f input p r c % word_mod)

add_pixel-plane :
    (input : Image) (p r c value : ℕ) (a : Acc)
    → p < 3
    → plane p (add_pixel input r c value a) ≡ add32 (plane p a) (mul32 (input.color p r c) value)
unfolding add_pixel
add_pixel-plane input p r c value a h = elim (Bool-cases (p == color_red)) [
  | inl red ↦ let same : p ≡ 0 = ground (arith, red) in rw (same) refl
  | inr not_red ↦ elim (Bool-cases (p == color_green)) [
    | inl green ↦ let same : p ≡ 1 = ground (arith, green) in rw (same) refl
    | inr not_green ↦ let same : p ≡ 2 = ground (arith, h, not_red, not_green) in rw (same) refl
  ]
]

wrap_step : (a x s : ℕ) → (add32 a (x % word_mod) + s) % word_mod ≡ (a + (x + s)) % word_mod
wrap_step a x s = omega arith

sum_one_row-plane :
    (f : Filter) (input : Image) (p row col i left j : ℕ) (a : Acc)
    → p < 3
    → plane p a < word_mod
    → plane p (sum_one_row f input row col i left j a)
      ≡ (plane p a
          + sum_from
              (λ k. input.color p (row + i - 1) (col + k - 1) * f.data_at (i * f.dim + k))
              j
              left)
        % word_mod
unfolding sum_one_row get
sum_one_row-plane f input p row col i zero j a h small = omega (arith, small)
sum_one_row-plane f input p row col i (suc left) j a h small =
    let g = λ (k : ℕ). input.color p (row + i - 1) (col + k - 1) * f.data_at (i * f.dim + k) in
    let a1 = add_pixel input (row + i - 1) (col + j - 1) (get f i j) a in
    let first : plane p a1 ≡ add32 (plane p a) (g j % word_mod) =
      add_pixel-plane input p (row + i - 1) (col + j - 1) (get f i j) a h in
    let rest = sum_one_row-plane f input p row col i left (j + 1) a1 h (ground (arith, first)) in
    rest
    ∙ ap (λ x. (x + sum_from g (j + 1) left) % word_mod) first
    ∙ wrap_step (plane p a) (g j) (sum_from g (j + 1) left)

sum_one-plane :
    (f : Filter) (input : Image) (p row col left i : ℕ) (a : Acc)
    → p < 3
    → plane p a < word_mod
    → plane p (sum_one f input row col left i a)
      ≡ (plane p a + sum_from (λ k. weighted_row f input p row col k) i left) % word_mod
unfolding sum_one
sum_one-plane f input p row col zero i a h small = omega (arith, small)
sum_one-plane f input p row col (suc left) i a h small =
    let g = λ (k : ℕ). weighted_row f input p row col k in
    let a1 = sum_one_row f input row col i f.dim 0 a in
    let first : plane p a1 ≡ (plane p a + g i) % word_mod =
      sum_one_row-plane f input p row col i f.dim 0 a h small in
    let rest = sum_one-plane f input p row col left (i + 1) a1 h (omega (arith, first)) in
    let total = sum_from g (i + 1) left in
    let step : ((plane p a + g i) % word_mod + total) % word_mod
        ≡ (plane p a + (g i + total)) % word_mod =
      omega arith in
    rest ∙ ap (λ x. (x + total) % word_mod) first ∙ step

pub sum_one-weighted :
    (f : Filter) (input : Image) (p row col : ℕ)
    → p < 3
    → plane p (sum_one f input row col f.dim 0 no_acc) ≡ weighted f input p row col % word_mod
sum_one-weighted f input p row col h =
    let zero_plane : plane p no_acc ≡ 0 = ground arith in
    sum_one-plane f input p row col f.dim 0 no_acc h (omega (arith, zero_plane))
    ∙ ap (λ x. (x + weighted f input p row col) % word_mod) zero_plane
    ∙ ap (λ x. x % word_mod) (zero_add (weighted f input p row col))
  where
    zero_add : (x : ℕ) → 0 + x ≡ x
    zero_add x = omega arith

-- The division and the two tests behind it.
pub scaled-limited :
    (f : Filter) (acc : ℕ)
    → 0 < f.divisor
    → f.divisor < sign_bit
    → acc < word_mod
    → scaled f acc ≡ some (limited f.divisor acc)
unfolding scaled div_int clamp
scaled-limited f acc hd hs ha =
    let nonzero : (f.divisor == 0) ≡ false = ground (arith, hd) in
    let not_max : (f.divisor == word_max) ≡ false = ground (arith, hs) in
    let pos_b : ltb f.divisor sign_bit ≡ true = ground (arith, hs) in
    elim (Bool-cases (ltb acc sign_bit)) [
      | inl pos_a ↦
          let below : acc / f.divisor ≤ acc = div-le_self acc f.divisor in
          rw (nonzero, not_max, pos_b, pos_a) (ground (arith, below, pos_a))
      | inr neg_a ↦
          let below : (word_mod - acc) / f.divisor ≤ word_mod - acc =
            div-le_self (word_mod - acc) f.divisor in
          rw (nonzero, not_max, pos_b, neg_a) (ground (arith, below, neg_a))
    ]
