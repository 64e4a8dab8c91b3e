-- ===== src/Malloc/FreeList/Splice.antt =====
-- Lists of links before and after one node is taken out or put in front.
use computer_systems_labs.Base.{
  ℕ, ◌≡◌, ◌≢◌, refl, arith, ◌==◌, if◌then◌else◌, List, [], ◌∷◌, ◌++◌, All,
}
use mathlib.Core.Path.{subst}
use computer_systems_labs.Malloc.Bytes.{Bytes}
use computer_systems_labs.Malloc.Tags.{next_free, prev_free}
use computer_systems_labs.Malloc.FreeList.Links.{head_or, last_or, Links, Distinct}

pub All-append_right {ℓ κ} :
    {A : Type ℓ} (P : A → Type κ) (xs ys : List A) → All P (xs ++ ys) → All P ys
All-append_right P [] ys h = h
All-append_right P (x ∷ xs) ys h = All-append_right P xs ys h.1

pub All-append_left {ℓ κ} :
    {A : Type ℓ} (P : A → Type κ) (xs ys : List A) → All P (xs ++ ys) → All P xs
All-append_left P [] ys h = tt
All-append_left P (x ∷ xs) ys h = (h.0, All-append_left P xs ys h.1)

pub All-remove {ℓ κ} :
    {A : Type ℓ} (P : A → Type κ) (x : A) (xs ys : List A) → All P (xs ++ x ∷ ys) → All P (xs ++ ys)
All-remove P x [] ys h = h.1
All-remove P x (w ∷ xs) ys h = (h.0, All-remove P x xs ys h.1)

pub others_ne : (x a : ℕ) (xs : List ℕ) → a ≡ x → All (λ y. x ≢ y) xs → All (λ y. y ≢ a) xs
others_ne x a [] e h = tt
others_ne x a (y ∷ ys) e h = (ground (arith, h.0), others_ne x a ys e h.1)

pub head_or-satisfies {κ} :
    (P : ℕ → Type κ) (t : ℕ) (xs : List ℕ) → P t → All P xs → P (head_or t xs)
head_or-satisfies P t [] h a = h
head_or-satisfies P t (x ∷ xs) h a = a.0

pub last_or-satisfies {κ} :
    (P : ℕ → Type κ) (b : ℕ) (xs : List ℕ) → P b → All P xs → P (last_or b xs)
last_or-satisfies P b [] h a = h
last_or-satisfies P b (x ∷ xs) h a = last_or-satisfies P x xs a.0 a.1

-- The neighbours of a node, read from its links.
pub Links-at :
    (m : Bytes) (t before x : ℕ) (xs ys : List ℕ)
    → Links m t before (xs ++ x ∷ ys)
    → (prev_free x m ≡ last_or before xs) × (next_free x m ≡ head_or t ys)
Links-at m t before x [] ys links = (links.0, links.1)
Links-at m t before x (w ∷ xs) ys links = Links-at m t w x xs ys links.2

-- The node before `x` is another one.
pub Distinct-last : (t w x : ℕ) (xs ys : List ℕ) → Distinct t (w ∷ xs ++ x ∷ ys) → x ≢ last_or w xs
Distinct-last t w x [] ys d = ground (arith, d.1.0)
Distinct-last t w x (v ∷ xs) ys d = Distinct-last t v x xs ys d.2

pub Distinct-remove : (t x : ℕ) (xs ys : List ℕ) → Distinct t (xs ++ x ∷ ys) → Distinct t (xs ++ ys)
Distinct-remove t x [] ys d = d.2
Distinct-remove t x (w ∷ xs) ys d =
    (d.0, All-remove (λ y. w ≢ y) x xs ys d.1, Distinct-remove t x xs ys d.2)

-- `m'` is `m` after the link back from `a` was set to `l` and the link forward from `l` to `a`.
module _ (Node : ℕ → Type 0) (m m' : Bytes) (t a l : ℕ)
    (prevs : (y : ℕ) → Node y → prev_free y m' ≡ (if y == a then l else prev_free y m))
    (nexts : (y : ℕ) → Node y → next_free y m' ≡ (if y == l then a else next_free y m)) where
  frame :
      (before : ℕ) (xs : List ℕ)
      → Links m t before xs
      → All Node xs
      → Node t
      → All (λ y. y ≢ a) xs
      → t ≢ a
      → All (λ y. y ≢ l) xs
      → Links m' t before xs
  frame before [] links ns nt na ta nl = ground (arith, prevs t nt)
  frame before (x ∷ xs) links ns nt na ta nl = (
    ground (arith, prevs x ns.0),
    ground (arith, nexts x ns.0),
    frame x xs links.2 ns.1 nt na.1 ta nl.1,
  )

  -- The nodes from `a` on.
  pub relink :
      (before : ℕ) (xs : List ℕ)
      → Links m t before xs
      → a ≡ head_or t xs
      → All Node xs
      → Node t
      → Distinct t xs
      → All (λ y. y ≢ l) xs
      → Links m' t l xs
  relink before [] links e ns nt d nl = ground (arith, prevs t nt)
  relink before (x ∷ xs) links e ns nt d nl = (
    ground (arith, prevs x ns.0),
    ground (arith, nexts x ns.0),
    frame x xs links.2 ns.1 nt (others_ne x a xs e d.1) (ground (arith, d.0)) nl.1,
  )

  -- The nodes before `l`, and those from `a` on, where `x` stood between the two.
  pub splice :
      (before x : ℕ) (xs ys : List ℕ)
      → Links m t before (xs ++ x ∷ ys)
      → a ≡ head_or t ys
      → l ≡ last_or before xs
      → All Node (xs ++ x ∷ ys)
      → Node t
      → Distinct t (xs ++ x ∷ ys)
      → All (λ y. y ≢ before) (xs ++ x ∷ ys)
      → Links m' t before (xs ++ ys)
  splice before x [] ys links ea el ns nt d nb =
      subst (λ b. Links m' t b ys) el (relink x ys links.2 ea ns.1 nt d.2 (rw el nb.1))
  splice before x (w ∷ []) ys links ea el ns nt d nb = (
    ground (arith, prevs w ns.0, head_or-satisfies (λ y. w ≢ y) t ys d.0 d.1.1),
    ground (arith, nexts w ns.0),
    splice w x [] ys links.2 ea el ns.1 nt d.2 (others_ne w w (x ∷ ys) refl d.1),
  )
  splice before x (w ∷ w' ∷ xs) ys links ea el ns nt d nb =
      let behind = (All-append_right (λ y. w ≢ y) (w' ∷ xs) (x ∷ ys) d.1).1 in
      let between = All-append_left (λ y. w ≢ y) xs (x ∷ ys) d.1.1 in
      let not_a = head_or-satisfies (λ y. w ≢ y) t ys d.0 behind in
      let not_l = last_or-satisfies (λ y. w ≢ y) w' xs d.1.0 between in
      (
        ground (arith, prevs w ns.0),
        ground (arith, nexts w ns.0),
        splice w x (w' ∷ xs) ys links.2 ea el ns.1 nt d.2
            (others_ne w w (w' ∷ xs ++ x ∷ ys) refl d.1),
      )
