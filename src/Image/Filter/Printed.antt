-- ===== src/Image/Filter/Printed.antt =====
-- FilterMain.cpp: `readFilter` of a file that holds a filter.
use native.Mathlib.Nat.{suc-mul, mul-le-mul_right}
use mathlib.Core.Path.{subst}
use computer_systems_labs.Base.{
  ℕ, zero, suc, ◌+◌, ◌*◌, ◌≤◌, ◌<◌, ◌≡◌, inl, inr, refl, sym, ap, ◌∙◌, true, false, Bool-cases,
  some, List, ◌∷◌, ◌==◌, ◌>>=◌, arith,
}
use computer_systems_labs.Image.Filter.{
  Filter, new_filter, get, set, set_divisor, read_row, read_rows, read_filter,
}

-- The numbers of a row, and of the rows from `i` on, before more of the file.
abbrev pub print_row : Filter → ℕ → ℕ → ℕ → List ℕ → List ℕ
print_row f i zero j rest = rest
print_row f i (suc left) j rest = get f i j ∷ print_row f i left (j + 1) rest

abbrev pub print_rows : Filter → ℕ → ℕ → List ℕ → List ℕ
print_rows f zero i rest = rest
print_rows f (suc left) i rest = print_row f i f.dim 0 (print_rows f left (i + 1) rest)

abbrev pub print_filter : Filter → List ℕ → List ℕ
print_filter f rest = f.dim ∷ f.divisor ∷ print_rows f f.dim 0 rest

-- The places of a square array with different rows are different.
index_below : (dim r i c j : ℕ) → r < i → c < dim → r * dim + c < i * dim + j
index_below dim r i c j h hc =
    let whole : suc r * dim ≤ i * dim = mul-le-mul_right dim h in
    let next : suc r * dim ≡ r * dim + dim = suc-mul r dim in ground (arith, whole, next, hc)

-- What is read of `f`: the rows before `i`, and in row `i` the columns before `j`.
record IsRead (f g : Filter) (i j : ℕ) : Type 0 where
  same_dim : g.dim ≡ f.dim
  same_divisor : g.divisor ≡ f.divisor
  rows : (r c : ℕ) → r < i → c < f.dim → get g r c ≡ get f r c
  columns : (c : ℕ) → c < j → c < f.dim → get g i c ≡ get f i c

set-IsRead :
    (f g : Filter) (i j : ℕ)
    → j < f.dim
    → IsRead f g i j
    → IsRead f (set i j (get f i j) g) i (j + 1)
unfolding set get
set-IsRead f g i j h read = record {
  same_dim = read.same_dim;
  same_divisor = read.same_divisor;
  rows = λ r c hr hc.
      let dim = read.same_dim in
      let apart : r * g.dim + c < i * g.dim + j = rw (dim) (index_below f.dim r i c j hr hc) in
      let other : (r * g.dim + c == i * g.dim + j) ≡ false = ground (arith, apart) in
      rw (other) (read.rows r c hr hc);
  columns = λ c hj hc. elim (Bool-cases (c == j)) [
    | inl last ↦
        let same : c ≡ j = ground (arith, last) in
        let self : (i * g.dim + j == i * g.dim + j) ≡ true = ground arith in rw (same, self) refl
    | inr before ↦
        let other : (i * g.dim + c == i * g.dim + j) ≡ false = ground (arith, before) in
        rw (other) (read.columns c (ground (arith, before, hj)) hc)
  ];
}

read_row-print_row :
    (f g : Filter) (i left j : ℕ) (rest : List ℕ)
    → j + left ≡ f.dim
    → IsRead f g i j
    → (g' : Filter) × (read_row i left j (print_row f i left j rest) g ≡ some (rest, g'))
      × IsRead f g' (i + 1) 0
unfolding read_row
read_row-print_row f g i zero j rest h read = (
  g,
  refl,
  record {
    same_dim = read.same_dim;
    same_divisor = read.same_divisor;
    rows = λ r c hr hc. elim (Bool-cases (r == i)) [
      | inl here ↦
          let same : r ≡ i = ground (arith, here) in rw (same) (read.columns c (omega arith) hc)
      | inr above ↦ read.rows r c (ground (arith, above, hr)) hc
    ];
    columns = λ c hj hc. absurd (omega arith);
  },
)
read_row-print_row f g i (suc left) j rest h read =
    read_row-print_row f (set i j (get f i j) g) i left (j + 1) rest (omega arith)
      (set-IsRead f g i j (omega arith) read)

read_rows-print_rows :
    (f g : Filter) (left i : ℕ) (rest : List ℕ)
    → i + left ≡ f.dim
    → IsRead f g i 0
    → (g' : Filter) × (read_rows left i (print_rows f left i rest) g ≡ some g')
      × IsRead f g' f.dim 0
unfolding read_rows
read_rows-print_rows f g zero i rest h read =
    let all : i ≡ f.dim = omega arith in (g, refl, subst (λ n. IsRead f g n 0) all read)
read_rows-print_rows f g (suc left) i rest h read =
    let (g1, row, read1) =
      read_row-print_row f g i f.dim 0 (print_rows f left (i + 1) rest) (omega arith) read in
    let (g2, more, read2) = read_rows-print_rows f g1 left (i + 1) rest (omega arith) read1 in
    let input = print_rows f (suc left) i rest in
    let read_it : read_row i g.dim 0 input g ≡ some (print_rows f left (i + 1) rest, g1) =
      subst (λ n. read_row i n 0 input g ≡ some (print_rows f left (i + 1) rest, g1))
        (sym read.same_dim) row in
    (g2, ap (λ o. o >>= (λ x. read_rows left (i + 1) x.0 x.1)) read_it ∙ more, read2)

-- From a file with the size, the divisor and the numbers of a filter row by row, readFilter returns a
-- filter with this size, divisor and number in every row and column.
pub read_filter-print_filter :
    (f : Filter) (fresh : ℕ → ℕ) (rest : List ℕ)
    → (g : Filter) × (read_filter fresh (print_filter f rest) ≡ some g)
      × (g.dim ≡ f.dim)
      × (g.divisor ≡ f.divisor)
      × ((r c : ℕ) → r < f.dim → c < f.dim → get g r c ≡ get f r c)
unfolding read_filter set_divisor new_filter
read_filter-print_filter f fresh rest =
    let start = set_divisor f.divisor (new_filter f.dim fresh) in
    let none_read : IsRead f start 0 0 = record {
      same_dim = refl;
      same_divisor = refl;
      rows = λ r c hr hc. absurd (omega arith);
      columns = λ c hj hc. absurd (omega arith);
    } in
    let (g, found, read) = read_rows-print_rows f start f.dim 0 rest (omega arith) none_read in
    (g, found, read.same_dim, read.same_divisor, read.rows)
