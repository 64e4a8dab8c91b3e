-- ===== src/Sampler/Smallest.antt =====
-- fcyc.c: the values that are kept are the smallest of all samples, and the sampling ends.
use computer_systems_labs.Base.{
  ℕ, zero, suc, ◌≤◌, ◌<◌, ◌≡◌, inl, inr, refl, sym, ap, ◌∙◌, Bool, true, false, Bool-cases, List,
  [], ◌∷◌, length, ltb, if◌then◌else◌, ◌==◌, All, arith,
}
use computer_systems_labs.Sampler.Laws.{insert, length-insert, replace, keep}

-- What `>` on numbers that are not NaN satisfies: "not greater" is transitive and total.
pub record IsOrder {ℓ} {A : Type ℓ} (gt : A → A → Bool) : Type ℓ where
  pub le_trans : (a b c : A) → gt a b ≡ false → gt b c ≡ false → gt a c ≡ false
  pub le_total : (a b : A) → gt a b ≡ true → gt b a ≡ false

module _ {ℓ} {A : Type ℓ} (gt : A → A → Bool) where
  abbrev pub Descends : List A → Type ℓ
  Descends [] = Unit
  Descends (r ∷ rs) = All (λ y. gt y r ≡ false) rs × Descends rs

  -- The `k` smallest of a list that goes down.
  unfoldable pub smallest : ℕ → List A → List A
  smallest k [] = []
  smallest k (r ∷ rs) = let rest = smallest k rs in if ltb k (suc (length rs)) then rest else r ∷ rs

  -- The first `n` samples, sorted.
  unfoldable pub sorted : (ℕ → A) → ℕ → List A
  sorted measure zero = []
  sorted measure (suc n) = insert gt (measure n) (sorted measure n)

  pub smallest-all : (k : ℕ) (rs : List A) → length rs ≤ k → smallest k rs ≡ rs
  unfolding smallest
  smallest-all k [] h = refl
  smallest-all k (r ∷ rs) h = ground (arith, h)

  pub smallest-longer :
      (k : ℕ) (r : A) (rs : List A) → k ≤ length rs → smallest k (r ∷ rs) ≡ smallest k rs
  unfolding smallest
  smallest-longer k r rs h = ground (arith, h)

  length-smallest : (k : ℕ) (rs : List A) → k ≤ length rs → length (smallest k rs) ≡ k
  unfolding smallest
  length-smallest k [] h = omega (h, arith)
  length-smallest k (r ∷ rs) h = elim (Bool-cases (ltb k (suc (length rs)))) [
    | inl longer ↦ rw longer (length-smallest k rs (ground (arith, longer)))
    | inr full ↦ rw full (ground (arith, full, h))
  ]

  All-smallest : (P : A → Type 0) (k : ℕ) (rs : List A) → All P rs → All P (smallest k rs)
  unfolding smallest
  All-smallest P k [] h = tt
  All-smallest P k (r ∷ rs) h = elim (Bool-cases (ltb k (suc (length rs)))) [
    | inl longer ↦ rw longer (All-smallest P k rs h.1)
    | inr full ↦ rw full h
  ]

  pub All-insert {κ} :
      (P : A → Type κ) (x : A) (rs : List A) → P x → All P rs → All P (insert gt x rs)
  unfolding insert
  All-insert P x [] p h = (p, tt)
  All-insert P x (r ∷ rs) p h = elim (Bool-cases (gt r x)) [
    | inl larger ↦ rw larger (h.0, All-insert P x rs p h.1)
    | inr stays ↦ rw stays (p, h)
  ]

  pub insert-All : (P : A → Type 0) (x : A) (rs : List A) → All P (insert gt x rs) → P x × All P rs
  unfolding insert
  insert-All P x [] h = h
  insert-All P x (r ∷ rs) h = elim (Bool-cases (gt r x)) [
    | inl larger ↦
        let seen = rw larger at h in
        let (there, rest) = insert-All P x rs seen.1 in (there, (seen.0, rest))
    | inr stays ↦ rw stays at h
  ]

  -- Nothing that is at most `x` is replaced by `x`.
  keep-larger :
      (k : ℕ) (x : A) (rs : List A)
      → length rs ≡ k
      → All (λ y. gt y x ≡ false) rs
      → keep gt k x rs ≡ rs
  unfolding keep replace
  keep-larger k x [] full h = ground (arith, full)
  keep-larger k x (r ∷ rs) full h = ground (arith, full, h.0)

  keep-short :
      (k : ℕ) (x : A) (rs : List A)
      → length rs < k
      → keep gt k x (smallest k rs) ≡ smallest k (insert gt x rs)
  unfolding keep
  keep-short k x rs short =
      let all = smallest-all k rs (omega (arith, short)) in
      let grown = smallest-all k (insert gt x rs) (omega (arith, short, length-insert gt x rs)) in
      rw (all, grown) (ground (arith, short))

  keep-none : (k : ℕ) (x : A) → keep gt k x (smallest k []) ≡ smallest k (x ∷ [])
  unfolding keep replace insert smallest
  keep-none k x = ground arith

  module _ (order : IsOrder gt) where
    below :
        (a b : A) (rs : List A)
        → gt a b ≡ false
        → All (λ y. gt y a ≡ false) rs
        → All (λ y. gt y b ≡ false) rs
    below a b [] le h = tt
    below a b (r ∷ rs) le h = (order.le_trans r a b h.0 le, below a b rs le h.1)

    insert-Descends : (x : A) (rs : List A) → Descends rs → Descends (insert gt x rs)
    unfolding insert
    insert-Descends x [] h = (tt, tt)
    insert-Descends x (r ∷ rs) h = elim (Bool-cases (gt r x)) [
      | inl larger ↦ rw larger (
        All-insert (λ y. gt y r ≡ false) x rs (order.le_total r x larger) h.0,
        insert-Descends x rs h.1,
      )
      | inr stays ↦ rw stays ((stays, below r x rs stays h.0), h)
    ]

    pub sorted-Descends : (measure : ℕ → A) (n : ℕ) → Descends (sorted measure n)
    unfolding sorted
    sorted-Descends measure zero = tt
    sorted-Descends measure (suc n) =
        insert-Descends (measure n) (sorted measure n) (sorted-Descends measure n)

    keep-dropped :
        (k : ℕ) (x r : A) (rs : List A)
        → k ≤ length rs
        → gt r x ≡ false
        → Descends (r ∷ rs)
        → keep gt k x (smallest k (r ∷ rs)) ≡ smallest k (x ∷ r ∷ rs)
    keep-dropped k x r rs long stays h =
        keep-larger k x (smallest k (r ∷ rs)) (length-smallest k (r ∷ rs) (omega (long, arith)))
          (All-smallest (λ y. gt y x ≡ false) k (r ∷ rs) (stays, below r x rs stays h.0))
        ∙ sym (smallest-longer k x (r ∷ rs) (omega (long, arith)))

    -- A list that is just full.
    keep-full :
        (k : ℕ) (x r : A) (rs : List A)
        → suc (length rs) ≡ k
        → keep gt k x (r ∷ rs) ≡ smallest k (insert gt x (r ∷ rs))
    unfolding keep replace insert
    keep-full k x r rs full = elim (Bool-cases (gt r x)) [
      | inl larger ↦
          let drop =
            smallest-longer k r (insert gt x rs) (omega (arith, full, length-insert gt x rs)) in
          let all = smallest-all k (insert gt x rs) (omega (arith, full, length-insert gt x rs)) in
          ground (arith, full, larger, drop, all)
      | inr stays ↦
          let drop = smallest-longer k x (r ∷ rs) (omega (arith, full)) in
          let all = smallest-all k (r ∷ rs) (omega (arith, full)) in
          ground (arith, full, stays, drop, all)
    ]

    -- One more sample, kept among the smallest, gives the smallest with one more sample.
    pub keep-smallest :
        (k : ℕ) (x : A) (rs : List A)
        → Descends rs
        → keep gt k x (smallest k rs) ≡ smallest k (insert gt x rs)
    unfolding insert
    keep-smallest k x [] h = keep-none k x
    keep-smallest k x (r ∷ rs) h = elim (Bool-cases (ltb k (suc (length rs)))) [
      | inl longer ↦
          let long : k ≤ length rs = ground (arith, longer) in
          elim (Bool-cases (gt r x)) [
            | inl larger ↦ rw larger (
                ap (keep gt k x) (smallest-longer k r rs long)
                ∙ keep-smallest k x rs h.1
                ∙ sym (
                    smallest-longer k r (insert gt x rs)
                      (omega (arith, long, length-insert gt x rs))))
            | inr stays ↦ rw stays (keep-dropped k x r rs long stays h)
          ]
      | inr fits ↦ elim (Bool-cases (suc (length rs) == k)) [
        | inl full ↦
            ap (keep gt k x) (smallest-all k (r ∷ rs) (ground (arith, fits)))
            ∙ keep-full k x r rs (ground (arith, full))
        | inr short ↦ keep-short k x (r ∷ rs) (ground (arith, fits, short))
      ]
    ]
