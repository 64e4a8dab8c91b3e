-- ===== src/Sampler/Least.antt =====
-- fcyc.c: `fcyc` ends with the first run that settles it, and returns the smallest sample.
use mathlib.Core.Path.{subst}
use computer_systems_labs.Base.{
  ℕ, zero, suc, ◌+◌, ◌≤◌, ◌<◌, ◌≡◌, ◌⊎◌, inl, inr, refl, sym, ap, ◌∙◌, ◌-◌, Bool, true, false, leb,
  if◌then◌else◌, ◌&&◌, not, Bool-cases, some, ltb, ◌==◌, arith,
}
use computer_systems_labs.Sampler.{
  Samples, init_sampler, add_sample, has_converged, fcyc_loop, fcyc,
}
use computer_systems_labs.Sampler.Laws.{Holds}
use computer_systems_labs.Sampler.Smallest.{IsOrder, smallest, sorted, sorted-Descends}
use computer_systems_labs.Sampler.Sampled.{
  IsSampled, add_sample-IsSampled, IsSampled-start, All-sorted, sorted-least, among, Measured,
  length-sorted, sorted-Measured,
}

module _ {ℓ} {A : Type ℓ} (gt close : A → A → Bool) (order : IsOrder gt) (kbest : ℕ)
    (pos : 0 < kbest) (measure : ℕ → A) (zero_value : A) (maxsamples : ℕ) where
  -- The samples after `n` runs.
  abbrev pub sampled : ℕ → Samples A
  sampled zero = init_sampler zero_value
  sampled (suc n) = add_sample gt kbest (measure n) (sampled n)

  -- Whether the smallest and the largest of `kbest` values are close after `n` runs.
  abbrev pub settled : ℕ → Bool
  settled n = leb kbest n && close ((sampled n).values 0) ((sampled n).values (kbest - 1))

  sampled-count : (n : ℕ) → (sampled n).samplecount ≡ n
  unfolding init_sampler add_sample
  sampled-count zero = refl
  sampled-count (suc n) = let before = sampled-count n in omega (before, arith)

  sampled-IsSampled : (n : ℕ) → IsSampled gt close order kbest pos measure (sampled n)
  sampled-IsSampled zero = IsSampled-start gt close order kbest pos measure zero_value
  sampled-IsSampled (suc n) =
      subst
        (λ c.
          IsSampled gt close order kbest pos measure (add_sample gt kbest (measure c) (sampled n)))
        (sampled-count n)
        (add_sample-IsSampled gt close order kbest pos measure (sampled n) (sampled-IsSampled n))

  sampled-Holds : (n : ℕ) → Holds (sampled n).values (smallest gt kbest (sorted gt measure n))
  sampled-Holds n =
      subst (λ c. Holds (sampled n).values (smallest gt kbest (sorted gt measure c)))
        (sampled-count n) (sampled-IsSampled n).held

  has_converged-settled : (n : ℕ) → has_converged close kbest (sampled n) ≡ settled n
  unfolding has_converged
  has_converged-settled n =
      ap (λ c. leb kbest c && close ((sampled n).values 0) ((sampled n).values (kbest - 1)))
        (sampled-count n)

  loop_step :
      (fuel n : ℕ)
      → fcyc_loop gt close kbest maxsamples measure (suc fuel) (sampled n) ≡ (
          if not (settled (suc n)) && ltb (suc n) maxsamples
          then fcyc_loop gt close kbest maxsamples measure fuel (sampled (suc n))
          else some (sampled (suc n)))
  unfolding fcyc_loop
  loop_step fuel n =
      ap
        (λ c.
          let s1 = add_sample gt kbest (measure c) (sampled n) in
          if not (has_converged close kbest s1) && ltb s1.samplecount maxsamples
          then fcyc_loop gt close kbest maxsamples measure fuel s1
          else some s1)
        (sampled-count n)
      ∙ ap
          (λ b.
            if not b && ltb (sampled (suc n)).samplecount maxsamples
            then fcyc_loop gt close kbest maxsamples measure fuel (sampled (suc n))
            else some (sampled (suc n)))
          (has_converged-settled (suc n))
      ∙ ap
          (λ c.
            if not (settled (suc n)) && ltb c maxsamples
            then fcyc_loop gt close kbest maxsamples measure fuel (sampled (suc n))
            else some (sampled (suc n)))
          (sampled-count (suc n))

  -- The runs after the first `n` end with the first one that settles, or with the last one allowed.
  abbrev Stops : ℕ → ℕ → Type 0
  Stops n k =
      (n < k)
      × ((k ≤ maxsamples) ⊎ (k ≡ suc n))
      × ((settled k ≡ true) ⊎ (maxsamples ≤ k))
      × ((m : ℕ) → n < m → m < k → settled m ≡ false)

  fcyc_loop-Stops :
      (fuel n : ℕ)
      → maxsamples < fuel + n
      → 0 < fuel
      → (k : ℕ) × (fcyc_loop gt close kbest maxsamples measure fuel (sampled n) ≡ some (sampled k))
        × Stops n k
  fcyc_loop-Stops zero n enough some_fuel = absurd (omega (arith, some_fuel))
  fcyc_loop-Stops (suc fuel) n enough some_fuel =
      elim (Bool-cases (not (settled (suc n)) && ltb (suc n) maxsamples)) [
        | inr stop ↦ (
          suc n,
          loop_step fuel n ∙ rw (stop) refl,
          (omega arith, inr refl, ground (arith, stop), λ m lo hi. absurd (omega (lo, hi, arith))),
        )
        | inl go_on ↦
            let left : suc n < maxsamples = ground (arith, go_on) in
            let open_still : settled (suc n) ≡ false = ground (arith, go_on) in
            let (k, runs, (more, bound, end, none_before)) =
              fcyc_loop-Stops fuel (suc n) (omega (enough, arith)) (omega (enough, left, arith)) in
            (
              k,
              loop_step fuel n ∙ rw (go_on) runs,
              (
                omega (more, arith),
                inl (ground (arith, bound, left)),
                end,
                λ m lo hi. elim (Bool-cases (m == suc n)) [
                  | inl here ↦
                      subst (λ x. settled x ≡ false) (sym (ground (arith, here))) open_still
                  | inr later ↦ none_before m (ground (arith, lo, later)) hi
                ],
              ),
            )
      ]

  fcyc-result :
      (k : ℕ)
      → fcyc_loop gt close kbest maxsamples measure (maxsamples + 1) (init_sampler zero_value)
        ≡ some (sampled k)
      → fcyc gt close kbest maxsamples measure zero_value ≡ some ((sampled k).values 0)
  unfolding fcyc
  fcyc-result k runs = rw (runs, fcyc) refl

  -- Where `gt` is an order and `kbest` positive, `fcyc` returns the value at the start of the array
  -- after `n` runs, which is one of the `n` samples and not greater than any of them. Here `n` is at
  -- least 1, and at most `maxsamples` unless it is 1; after `n` runs the smallest and the largest of the
  -- `kbest` values are close or `maxsamples` is reached, and after fewer they are not close.
  pub fcyc_lem :
      (n : ℕ) × (fcyc gt close kbest maxsamples measure zero_value ≡ some ((sampled n).values 0))
      × (0 < n)
      × ((n ≤ maxsamples) ⊎ (n ≡ 1))
      × ((settled n ≡ true) ⊎ (maxsamples ≤ n))
      × ((m : ℕ) → 0 < m → m < n → settled m ≡ false)
      × ((i : ℕ) × (i < n) × ((sampled n).values 0 ≡ measure i))
      × ((j : ℕ) → j < n → gt ((sampled n).values 0) (measure j) ≡ false)
  fcyc_lem =
      let (n, runs, (more, bound, end, none_before)) =
        fcyc_loop-Stops (maxsamples + 1) 0 (omega arith) (omega arith) in
      (
        n,
        fcyc-result n runs,
        more,
        ground (arith, bound),
        end,
        none_before,
        among gt close order kbest pos measure (Measured gt close order kbest pos measure n)
            (sampled n).values (sorted gt measure n)
            (omega (length-sorted gt close order kbest pos measure n, more, arith))
            (sorted-Measured gt close order kbest pos measure n) (sampled-Holds n),
        All-sorted gt close order kbest pos measure (λ y. gt ((sampled n).values 0) y ≡ false) n
            (sorted-least gt close order kbest pos measure (sampled n).values (sorted gt measure n)
              (sorted-Descends gt order measure n) (sampled-Holds n)),
      )
