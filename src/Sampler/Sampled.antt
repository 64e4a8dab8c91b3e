-- ===== src/Sampler/Sampled.antt =====
-- fcyc.c: the array after each sample has the smallest samples so far.
use mathlib.Core.Path.{subst}
use computer_systems_labs.Base.{
  ℕ, zero, suc, ◌+◌, ◌<◌, ◌≡◌, inl, inr, refl, sym, ap, ◌∙◌, Bool, false, Bool-cases, List, [], ◌∷◌,
  length, ltb, ◌==◌, All, arith,
}
use computer_systems_labs.Sampler.{Samples, init_sampler, add_sample}
use computer_systems_labs.Sampler.Laws.{Holds, IsKept, add_sample-IsKept, length-insert}
use computer_systems_labs.Sampler.Smallest.{
  IsOrder, Descends, smallest, smallest-all, smallest-longer, insert-All, All-insert, sorted,
  sorted-Descends, keep-smallest,
}

module _ {ℓ} {A : Type ℓ} (gt close : A → A → Bool) (order : IsOrder gt) (kbest : ℕ)
    (pos : 0 < kbest) (measure : ℕ → A) where
  -- After `samplecount` samples the array has the smallest of them.
  abbrev pub IsSampled : Samples A → Type ℓ
  IsSampled s = IsKept kbest s (smallest gt kbest (sorted gt measure s.samplecount))

  pub add_sample-IsSampled :
      (s : Samples A) → IsSampled s → IsSampled (add_sample gt kbest (measure s.samplecount) s)
  unfolding sorted add_sample
  add_sample-IsSampled s h =
      let n = s.samplecount in
      let s1 = add_sample gt kbest (measure n) s in
      let next : suc n ≡ n + 1 = omega arith in
      subst (λ m. IsKept kbest s1 (smallest gt kbest (sorted gt measure m))) next
        (subst (IsKept kbest s1)
          (keep-smallest gt order kbest (measure n) (sorted gt measure n)
            (sorted-Descends gt order measure n))
          (add_sample-IsKept gt kbest (measure n) s (smallest gt kbest (sorted gt measure n)) pos
            h))

  add_sample-count :
      (s : Samples A)
      → (add_sample gt kbest (measure s.samplecount) s).samplecount ≡ s.samplecount + 1
  unfolding add_sample
  add_sample-count s = refl

  Holds-tail :
      (v : ℕ → A) (r : A) (rs : List A)
      → Holds v (smallest gt kbest (r ∷ rs))
      → Holds v (smallest gt kbest rs)
  Holds-tail v r rs h = elim (Bool-cases (ltb kbest (suc (length rs)))) [
    | inl longer ↦ subst (Holds v) (smallest-longer gt kbest r rs (ground (arith, longer))) h
    | inr fits ↦
        let whole = subst (Holds v) (smallest-all gt kbest (r ∷ rs) (ground (arith, fits))) h in
        subst (Holds v) (sym (smallest-all gt kbest rs (ground (arith, fits)))) whole.1
  ]

  le_refl : (a : A) → gt a a ≡ false
  le_refl a = elim (Bool-cases (gt a a)) [ inl above ↦ order.le_total a a above | inr le ↦ le ]

  -- The value at the start of the array is at most each of the samples.
  start-least :
      (v : ℕ → A) (r : A) (rs : List A)
      → Descends gt (r ∷ rs)
      → Holds v (smallest gt kbest (r ∷ rs))
      → All (λ y. gt (v 0) y ≡ false) (r ∷ rs)
  start-least v r [] d h =
      let only = subst (Holds v) (smallest-all gt kbest (r ∷ []) (omega (arith, pos))) h in
      (subst (λ y. gt y r ≡ false) (sym only.0) (le_refl r), tt)
  start-least v r (r2 ∷ rs) d h =
      let least = start-least v r2 rs d.1 (Holds-tail v r (r2 ∷ rs) h) in
      (order.le_trans (v 0) r2 r least.0 d.0.0, least)

  pub sorted-least :
      (v : ℕ → A) (rs : List A)
      → Descends gt rs
      → Holds v (smallest gt kbest rs)
      → All (λ y. gt (v 0) y ≡ false) rs
  sorted-least v [] d h = tt
  sorted-least v (r ∷ rs) d h = start-least v r rs d h

  pub IsSampled-start : (zero_value : A) → IsSampled (init_sampler zero_value)
  unfolding init_sampler sorted smallest
  IsSampled-start zero_value = record { held = tt; counted = ground (arith, pos) }

  pub All-sorted :
      (P : A → Type 0) (n : ℕ) → All P (sorted gt measure n) → (j : ℕ) → j < n → P (measure j)
  unfolding sorted
  All-sorted P zero all j lt = absurd (omega (arith, lt))
  All-sorted P (suc n) all j lt = elim (Bool-cases (j == n)) [
    | inl last ↦
        subst (λ k. P (measure k)) (ground (arith, last))
          (insert-All gt P (measure n) (sorted gt measure n) all).0
    | inr earlier ↦
        All-sorted P n (insert-All gt P (measure n) (sorted gt measure n) all).1 j
          (ground (arith, earlier, lt))
  ]

  -- What the samples from 0 on are measured.
  abbrev pub Measured : ℕ → A → Type ℓ
  Measured n y = (i : ℕ) × (i < n) × (y ≡ measure i)

  pub sorted-Measured : (n : ℕ) → All (Measured n) (sorted gt measure n)
  unfolding sorted
  sorted-Measured zero = tt
  sorted-Measured (suc n) =
      All-insert gt (Measured (suc n)) (measure n) (sorted gt measure n) (n, omega arith, refl)
        (later (sorted gt measure n) (sorted-Measured n))
    where
      later : (rs : List A) → All (Measured n) rs → All (Measured (suc n)) rs
      later [] h = tt
      later (r ∷ rs) h = let (i, lt, same) = h.0 in ((i, omega (lt, arith), same), later rs h.1)

  start-among :
      (P : A → Type ℓ) (v : ℕ → A) (r : A) (rs : List A)
      → All P (r ∷ rs)
      → Holds v (smallest gt kbest (r ∷ rs))
      → P (v 0)
  start-among P v r [] all h =
      let only = subst (Holds v) (smallest-all gt kbest (r ∷ []) (omega (arith, pos))) h in
      subst P (sym only.0) all.0
  start-among P v r (r2 ∷ rs) all h = start-among P v r2 rs all.1 (Holds-tail v r (r2 ∷ rs) h)

  pub length-sorted : (n : ℕ) → length (sorted gt measure n) ≡ n
  unfolding sorted
  length-sorted zero = refl
  length-sorted (suc n) =
      length-insert gt (measure n) (sorted gt measure n) ∙ ap suc (length-sorted n)

  pub among :
      (P : A → Type ℓ) (v : ℕ → A) (rs : List A)
      → 0 < length rs
      → All P rs
      → Holds v (smallest gt kbest rs)
      → P (v 0)
  among P v [] some_value all h = absurd (omega (some_value, arith))
  among P v (r ∷ rs) some_value all h = start-among P v r rs all h
