-- ===== src/Sampler/Laws.antt =====
-- fcyc.c: what the array of the smallest samples holds.
use mathlib.Core.Path.{subst}
use computer_systems_labs.Base.{
  ℕ, zero, suc, ◌-◌, ◌<◌, ◌≡◌, inl, inr, refl, sym, ap, ◌∙◌, Bool, true, false, Bool-cases, List,
  [], ◌∷◌, length, ltb, if◌then◌else◌, arith,
}
use computer_systems_labs.Sampler.{Samples, set_value, swap_down, sift, add_sample}

module _ {ℓ} {A : Type ℓ} where
  -- The array `v` begins with the values `rs`, which are listed from the last one down.
  abbrev pub Holds : (ℕ → A) → List A → Type ℓ
  Holds v [] = Unit
  Holds v (r ∷ rs) = (v (length rs) ≡ r) × Holds v rs

  -- Insertion into a list that goes down.
  unfoldable pub insert : (A → A → Bool) → A → List A → List A
  insert gt x [] = x ∷ []
  insert gt x (r ∷ rs) = let rest = insert gt x rs in if gt r x then r ∷ rest else x ∷ r ∷ rs

  pub length-insert :
      (gt : A → A → Bool) (x : A) (rs : List A) → length (insert gt x rs) ≡ suc (length rs)
  unfolding insert
  length-insert gt x [] = refl
  length-insert gt x (r ∷ rs) = ground (arith, length-insert gt x rs)

  Holds-same :
      (v w : ℕ → A) (rs : List A) → ((j : ℕ) → j < length rs → w j ≡ v j) → Holds v rs → Holds w rs
  Holds-same v w [] same h = tt
  Holds-same v w (r ∷ rs) same h = (
    same (length rs) (omega arith) ∙ h.0,
    Holds-same v w rs (λ j lt. same j (omega (lt, arith))) h.1,
  )

  sift-above : (gt : A → A → Bool) (pos : ℕ) (v : ℕ → A) (j : ℕ) → pos < j → sift gt pos v j ≡ v j
  unfolding sift swap_down
  sift-above gt zero v j above = refl
  sift-above gt (suc pos) v j above =
      ground (arith, sift-above gt pos (swap_down (suc pos) v) j (omega (above, arith)))

  swap_down-values :
      (v : ℕ → A) (n : ℕ)
      → (swap_down (suc n) v n ≡ v (suc n))
        × (swap_down (suc n) v (suc n) ≡ v n)
        × ((j : ℕ) → j < n → swap_down (suc n) v j ≡ v j)
  unfolding swap_down
  swap_down-values v n = (ground arith, ground arith, λ j lt. ground (arith, lt))

  -- The insertion sort inserts the value at `pos` into those below it.
  sift-Holds :
      (gt : A → A → Bool) (rs : List A) (v : ℕ → A)
      → Holds v rs
      → Holds (sift gt (length rs) v) (insert gt (v (length rs)) rs)
  unfolding sift insert
  sift-Holds gt [] v h = (refl, tt)
  sift-Holds gt (r ∷ rs) v h = elim (Bool-cases (gt r (v (suc (length rs))))) [
    | inr stays ↦ rw (h.0, stays) (refl, h)
    | inl moves ↦
        let (low, high, same) = swap_down-values v (length rs) in
        let w = swap_down (suc (length rs)) v in
        let below = sift-Holds gt rs w (Holds-same v w rs same h.1) in
        let top : sift gt (length rs) w (length (insert gt (v (suc (length rs))) rs)) ≡ r =
          ap (sift gt (length rs) w) (length-insert gt (v (suc (length rs))) rs)
          ∙ sift-above gt (length rs) w (suc (length rs)) (omega arith)
          ∙ high
          ∙ h.0 in
        rw (h.0, moves) (top, subst (λ x. Holds (sift gt (length rs) w) (insert gt x rs)) low below)
  ]

  -- A new value behind those that are held is sorted in.
  sort_in :
      (gt : A → A → Bool) (x : A) (rs : List A) (v : ℕ → A) (n : ℕ)
      → length rs ≡ n
      → Holds v rs
      → Holds (sift gt n (set_value n x v)) (insert gt x rs)
  sort_in gt x rs v n e h =
      let w = set_value (length rs) x v in
      let at_end : w (length rs) ≡ x = ground arith in
      let before = Holds-same v w rs (λ j lt. ground (arith, lt)) h in
      subst (λ n. Holds (sift gt n (set_value n x v)) (insert gt x rs)) e
        (subst (λ y. Holds (sift gt (length rs) w) (insert gt y rs)) at_end
          (sift-Holds gt rs w before))

  -- What the `kbest` smallest samples become with one more: the largest leaves a full list.
  unfoldable pub replace : (A → A → Bool) → A → List A → List A
  replace gt x [] = []
  replace gt x (r ∷ rs) = if gt r x then insert gt x rs else r ∷ rs

  unfoldable pub keep : (A → A → Bool) → ℕ → A → List A → List A
  keep gt kbest x rs = if ltb (length rs) kbest then insert gt x rs else replace gt x rs

  -- The array holds `rs`: a value for each sample, and from `kbest` samples on that many.
  pub record IsKept (kbest : ℕ) (s : Samples A) (rs : List A) : Type ℓ where
    pub held : Holds s.values rs
    pub counted : length rs ≡ (if ltb s.samplecount kbest then s.samplecount else kbest)

  add_sample-room :
      (gt : A → A → Bool) (kbest : ℕ) (x : A) (s : Samples A) (rs : List A)
      → ltb s.samplecount kbest ≡ true
      → IsKept kbest s rs
      → IsKept kbest (add_sample gt kbest x s) (keep gt kbest x rs)
  unfolding add_sample keep
  add_sample-room gt kbest x s rs room k =
      let n : length rs ≡ s.samplecount = ground (arith, room, k.counted) in
      let short : ltb (length rs) kbest ≡ true = ground (arith, room, n) in
      rw (room, short)
        (record {
          held = sort_in gt x rs s.values s.samplecount n k.held;
          counted = ground (arith, room, n, length-insert gt x rs);
        })

  add_sample-full :
      (gt : A → A → Bool) (kbest : ℕ) (x : A) (s : Samples A) (r : A) (rs : List A)
      → ltb s.samplecount kbest ≡ false
      → IsKept kbest s (r ∷ rs)
      → IsKept kbest (add_sample gt kbest x s) (keep gt kbest x (r ∷ rs))
  unfolding add_sample keep replace
  add_sample-full gt kbest x s r rs full k =
      let n : length rs ≡ kbest - 1 = ground (arith, full, k.counted) in
      let long : ltb (suc (length rs)) kbest ≡ false = ground (arith, full, k.counted) in
      let top : s.values (kbest - 1) ≡ r = ap s.values (sym n) ∙ k.held.0 in
      elim (Bool-cases (gt r x)) [
        | inl smaller ↦
            rw (full, long, top, smaller)
              (record {
                held = sort_in gt x rs s.values (kbest - 1) n k.held.1;
                counted = ground (arith, full, k.counted, length-insert gt x rs);
              })
        | inr larger ↦
            rw (full, long, top, larger)
              (record { held = k.held; counted = ground (arith, full, k.counted) })
      ]

  -- `add_sample` keeps the smallest `kbest` of the values that are kept and the new one, in order.
  pub add_sample-IsKept :
      (gt : A → A → Bool) (kbest : ℕ) (x : A) (s : Samples A) (rs : List A)
      → 0 < kbest
      → IsKept kbest s rs
      → IsKept kbest (add_sample gt kbest x s) (keep gt kbest x rs)
  add_sample-IsKept gt kbest x s [] pos k =
      add_sample-room gt kbest x s [] (ground (arith, k.counted)) k
  add_sample-IsKept gt kbest x s (r ∷ rs) pos k = elim (Bool-cases (ltb s.samplecount kbest)) [
    | inl room ↦ add_sample-room gt kbest x s (r ∷ rs) room k
    | inr full ↦ add_sample-full gt kbest x s r rs full k
  ]
