-- ===== src/Image/Apply/Unrolled.antt =====
-- FilterMain.cpp: two columns a round do what the loop with one column a round does.
use computer_systems_labs.Base.{
  ℕ, zero, suc, ◌+◌, ◌-◌, ◌%◌, ◌≡◌, refl, ◌∙◌, Option, none, some, ◌>>=◌, arith,
}
use computer_systems_labs.Image.{Image}
use computer_systems_labs.Image.Filter.{Filter, get}
use computer_systems_labs.Image.Apply.{
  Acc, no_acc, add_pixel, sum_pair_row, sum_pair, sum_one_row, sum_one, two_columns, one_column,
  columns_by_two, columns_by_one, rows_by_two, rows_by_one, sized_as, apply_filter, apply_by_one,
}

bind_assoc {ℓ} :
    {A B C : Type ℓ} (o : Option A) (f : A → Option B) (g : B → Option C)
    → (o >>= f >>= g) ≡ (o >>= (λ x. f x >>= g))
bind_assoc none f g = refl
bind_assoc (some a) f g = refl

bind_cong {ℓ} :
    {A B : Type ℓ} (o : Option A) (f g : A → Option B)
    → ((x : A) → f x ≡ g x)
    → (o >>= f) ≡ (o >>= g)
bind_cong none f g h = refl
bind_cong (some a) f g h = h a

sum_pair_row-sum_one_row :
    (f : Filter) (input : Image) (row col i left j : ℕ) (a1 a2 : Acc)
    → sum_pair_row f input row col i left j (a1, a2)
      ≡ (sum_one_row f input row col i left j a1, sum_one_row f input row (col + 1) i left j a2)
unfolding sum_pair_row sum_one_row
sum_pair_row-sum_one_row f input row col i zero j a1 a2 = refl
sum_pair_row-sum_one_row f input row col i (suc left) j a1 a2 =
    let place : col + 1 + j - 1 ≡ col + j = omega arith in
    rw (place) (
      sum_pair_row-sum_one_row f input row col i left (j + 1)
        (add_pixel input (row + i - 1) (col + j - 1) (get f i j) a1)
        (add_pixel input (row + i - 1) (col + j) (get f i j) a2))

sum_pair-sum_one :
    (f : Filter) (input : Image) (row col left i : ℕ) (a1 a2 : Acc)
    → sum_pair f input row col left i (a1, a2)
      ≡ (sum_one f input row col left i a1, sum_one f input row (col + 1) left i a2)
unfolding sum_pair sum_one
sum_pair-sum_one f input row col zero i a1 a2 = refl
sum_pair-sum_one f input row col (suc left) i a1 a2 =
    rw (sum_pair_row-sum_one_row f input row col i f.dim 0 a1 a2) (
      sum_pair-sum_one f input row col left (i + 1) (sum_one_row f input row col i f.dim 0 a1)
        (sum_one_row f input row (col + 1) i f.dim 0 a2))

pub two_columns-one_column :
    (f : Filter) (input : Image) (row col : ℕ) (out : Image)
    → two_columns f input row col out
      ≡ (one_column f input row col out >>= one_column f input row (col + 1))
unfolding two_columns one_column
two_columns-one_column f input row col out =
    rw (sum_pair-sum_one f input row col f.dim 0 no_acc no_acc) refl

pub columns_by_two-even :
    (f : Filter) (input : Image) (row left col : ℕ) (out : Image)
    → left % 2 ≡ 0
    → columns_by_two f input row left col out ≡ columns_by_one f input row left col out
unfolding columns_by_two columns_by_one
columns_by_two-even f input row zero col out even = refl
columns_by_two-even f input row (suc zero) col out even = absurd (omega arith)
columns_by_two-even f input row (suc (suc left)) col out even =
    let place : col + 1 + 1 ≡ col + 2 = omega arith in
    let rest =
      λ (out1 : Image). columns_by_two-even f input row left (col + 2) out1 (omega arith) in
    rw (two_columns-one_column f input row col out, place)
      (bind_assoc (one_column f input row col out) (one_column f input row (col + 1))
          (columns_by_two f input row left (col + 2))
        ∙ bind_cong (one_column f input row col out)
            (λ out1.
              one_column f input row (col + 1) out1 >>= columns_by_two f input row left (col + 2))
            (λ out1.
              one_column f input row (col + 1) out1 >>= columns_by_one f input row left (col + 2))
            (λ out1.
              bind_cong (one_column f input row (col + 1) out1)
                (columns_by_two f input row left (col + 2))
                (columns_by_one f input row left (col + 2)) rest))

rows_by_two-even :
    (f : Filter) (input : Image) (left row : ℕ) (out : Image)
    → input.width % 2 ≡ 0
    → rows_by_two f input left row out ≡ rows_by_one f input left row out
unfolding rows_by_two rows_by_one
rows_by_two-even f input zero row out even = refl
rows_by_two-even f input (suc left) row out even =
    rw (columns_by_two-even f input row (input.width - 2) 1 out (ground (arith, even))) (
      bind_cong (columns_by_one f input row (input.width - 2) 1 out)
        (rows_by_two f input left (row + 1)) (rows_by_one f input left (row + 1))
        (λ out1. rows_by_two-even f input left (row + 1) out1 even))

-- On an image of even width applyFilter does exactly what the loop with one column a round does, for
-- every filter, a trapping division included.
pub apply_filter-even :
    (f : Filter) (input out : Image)
    → input.width % 2 ≡ 0
    → apply_filter f input out ≡ apply_by_one f input out
unfolding apply_filter apply_by_one
apply_filter-even f input out even =
    rows_by_two-even f input (input.height - 2) 1 (sized_as input out) even
