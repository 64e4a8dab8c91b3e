-- ===== src/Malloc/FreeList/Links.antt =====
-- The doubly linked list that the bytes hold, and what one store of a link changes in it.
use computer_systems_labs.Base.{
  ℕ, ◌+◌, ◌^◌, ◌<◌, ◌≡◌, ◌≢◌, ◌⊎◌, inl, inr, refl, arith, ◌==◌, ==_iff, Bool-cases, if◌then◌else◌,
  List, [], ◌∷◌, All,
}
use computer_systems_labs.Malloc.Bytes.{Bytes}
use computer_systems_labs.Malloc.Bytes.Laws.{Apart, read-write_self, read-write_elsewhere}
use computer_systems_labs.Malloc.Tags.{next_free, prev_free, set_next_free, set_prev_free}

-- The first node, or the end `t` of the list.
abbrev pub head_or : ℕ → List ℕ → ℕ
head_or t [] = t
head_or t (x ∷ xs) = x

-- The last node, or `b` where there is none.
abbrev pub last_or : ℕ → List ℕ → ℕ
last_or b [] = b
last_or b (x ∷ xs) = last_or x xs

-- From the nodes `xs` the links lead forward to `t` and back to `before`.
abbrev pub Links : Bytes → ℕ → ℕ → List ℕ → Type 0
Links m t before [] = prev_free t m ≡ before
Links m t before (x ∷ xs) =
    (prev_free x m ≡ before) × (next_free x m ≡ head_or t xs) × Links m t x xs

-- No node stands twice, and none is `t`.
abbrev pub Distinct : ℕ → List ℕ → Type 0
Distinct t [] = Unit
Distinct t (x ∷ xs) = (x ≢ t) × All (λ y. x ≢ y) xs × Distinct t xs

-- Addresses that nodes may have: any two of them leave room for the two links of each.
pub record Places (Node : ℕ → Type 0) : Type 0 where
  pub spaced : (x y : ℕ) → Node x → Node y → (x ≡ y) ⊎ Apart 16 x 16 y
  pub not_null : (x : ℕ) → Node x → 0 < x
  pub fits : (x : ℕ) → Node x → x < 2 ^ 64

module _ {Node : ℕ → Type 0} (places : Places Node) (m : Bytes) (x y v : ℕ) (hx : Node x)
    (hy : Node y) (small : v < 2 ^ 64) where
  pub prev-set_prev : prev_free y (set_prev_free x v m) ≡ (if y == x then v else prev_free y m)
  unfolding prev_free set_prev_free
  prev-set_prev = elim (Bool-cases (y == x)) [
    | inl same ↦ rw (same, (==_iff y x).0 same, read-write_self 8 x v m) (omega arith)
    | inr other ↦
        rw (other, read-write_elsewhere 8 y 8 x v m (ground (arith, places.spaced x y hx hy))) refl
  ]

  pub next-set_prev : next_free y (set_prev_free x v m) ≡ next_free y m
  unfolding next_free set_prev_free
  next-set_prev = read-write_elsewhere 8 (y + 8) 8 x v m (ground (arith, places.spaced x y hx hy))

  pub prev-set_next : prev_free y (set_next_free x v m) ≡ prev_free y m
  unfolding prev_free set_next_free
  prev-set_next = read-write_elsewhere 8 y 8 (x + 8) v m (ground (arith, places.spaced x y hx hy))

  pub next-set_next : next_free y (set_next_free x v m) ≡ (if y == x then v else next_free y m)
  unfolding next_free set_next_free
  next-set_next = elim (Bool-cases (y == x)) [
    | inl same ↦ rw (same, (==_iff y x).0 same, read-write_self 8 (x + 8) v m) (omega arith)
    | inr other ↦
        rw
          (
            other,
            read-write_elsewhere 8 (y + 8) 8 (x + 8) v m (ground (arith, places.spaced x y hx hy)),
          )
          refl
  ]
