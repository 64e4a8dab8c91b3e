-- ===== src/Sampler.antt =====
-- lab6-malloclab/fcyc.c: the K-best scheme, which repeats a measurement until the `kbest` smallest
-- samples are close to each other. A sample is a `double`; its type is a parameter with the
-- comparison `gt a b`, which is `a > b`. The array `values` is a function of the index.
pub mod Laws
pub mod Smallest
pub mod Sampled
pub mod Least
use computer_systems_labs.Base.{
  ℕ, zero, suc, ◌+◌, ◌-◌, Bool, true, false, ◌&&◌, ◌||◌, not, Option, none, some, ltb, leb, ◌==◌,
  if◌then◌else◌,
}

pub record Samples {ℓ} (A : Type ℓ) : Type ℓ where
  pub values : ℕ → A
  pub samplecount : ℕ

module _ {ℓ} {A : Type ℓ} where
  abbrev pub set_value : ℕ → A → (ℕ → A) → ℕ → A
  set_value i x v j = if j == i then x else v j

  -- `calloc` fills the array with zeros.
  unfoldable pub init_sampler : A → Samples A
  init_sampler zero_value = record { values = λ _. zero_value; samplecount = 0 }

  -- `temp = values[pos-1]; values[pos-1] = values[pos]; values[pos] = temp`
  unfoldable pub swap_down : ℕ → (ℕ → A) → ℕ → A
  swap_down pos v = set_value pos (v (pos - 1)) (set_value (pos - 1) (v pos) v)

  -- The insertion sort that moves the value at `pos` down.
  unfoldable pub sift : (A → A → Bool) → ℕ → (ℕ → A) → ℕ → A
  sift gt zero v = v
  sift gt (suc pos) v =
      let rest = sift gt pos (swap_down (suc pos) v) in if gt (v pos) (v (suc pos)) then rest else v

  unfoldable pub add_sample : (A → A → Bool) → ℕ → A → Samples A → Samples A
  add_sample gt kbest val s = record {
    values =
        if ltb s.samplecount kbest
        then sift gt s.samplecount (set_value s.samplecount val s.values)
        else if gt (s.values (kbest - 1)) val
        then sift gt (kbest - 1) (set_value (kbest - 1) val s.values)
        else s.values;
    samplecount = s.samplecount + 1;
  }

  -- `close a b` is `(1 + epsilon)*a >= b`
  unfoldable pub has_converged : (A → A → Bool) → ℕ → Samples A → Bool
  has_converged close kbest s = leb kbest s.samplecount && close (s.values 0) (s.values (kbest - 1))

  -- The loop of `fcyc`: `measure i` is what run `i` of the function takes. `none` where the fuel runs
  -- out.
  unfoldable pub fcyc_loop :
      (A → A → Bool) → (A → A → Bool) → ℕ → ℕ → (ℕ → A) → ℕ → Samples A → Option (Samples A)
  fcyc_loop gt close kbest maxsamples measure zero s = none
  fcyc_loop gt close kbest maxsamples measure (suc fuel) s =
      let s1 = add_sample gt kbest (measure s.samplecount) s in
      let rest = fcyc_loop gt close kbest maxsamples measure fuel s1 in
      if not (has_converged close kbest s1) && ltb s1.samplecount maxsamples then rest else some s1

  unfoldable pub fcyc : (A → A → Bool) → (A → A → Bool) → ℕ → ℕ → (ℕ → A) → A → Option A
  fcyc gt close kbest maxsamples measure zero_value =
      elim (fcyc_loop gt close kbest maxsamples measure (maxsamples + 1)
        (init_sampler zero_value)) [ none ↦ none | some s ↦ some (s.values 0) ]
