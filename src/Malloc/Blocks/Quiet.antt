-- ===== src/Malloc/Blocks/Quiet.antt =====
-- A change of links leaves the row of blocks, and a change outside a part of the row leaves that part.
use computer_systems_labs.Base.{
  ℕ, ◌+◌, ◌-◌, ◌≤◌, ◌<◌, ◌≡◌, ◌⊎◌, inl, inr, ◌∙◌, arith, List, [], ◌∷◌,
}
use computer_systems_labs.Malloc.Bytes.{Bytes}
use computer_systems_labs.Malloc.Bytes.Laws.{read_ext}
use computer_systems_labs.Malloc.Tags.{get}
use computer_systems_labs.Malloc.Blocks.{
  Block, IsBlock, Forward, Backward, AtForward, AtBackward, Node, Tiles,
}
use computer_systems_labs.Malloc.Blocks.Places.{
  Forward-le, Backward-le, AtForward-between, AtBackward-between,
}

-- The byte `a` belongs to no place for links.
abbrev pub Outside : (ℕ → Type 0) → ℕ → Type 0
Outside Place a = (y : ℕ) → Place y → (a < y) ⊎ (y + 16 ≤ a)

-- Only places for links were written.
abbrev pub Quiet : (ℕ → Type 0) → Bytes → Bytes → Type 0
Quiet Place m m' = (a : ℕ) → Outside Place a → m' a ≡ m a

pub get_ext :
    (q : ℕ) (m m' : Bytes) → ((a : ℕ) → q ≤ a → a < q + 4 → m' a ≡ m a) → get q m' ≡ get q m
unfolding get
get_ext q m m' h = read_ext 4 q m' m h

-- A block whose two tags are the same bytes is a block still.
pub IsBlock-same :
    (m m' : Bytes) (p : ℕ) (b : Block)
    → 4 ≤ p
    → ((a : ℕ) → p ≤ a + 4 → a < p → m' a ≡ m a)
    → ((a : ℕ) → p + b.size ≤ a + 8 → a + 4 < p + b.size → m' a ≡ m a)
    → IsBlock m p b
    → IsBlock m' p b
IsBlock-same m m' p b low head foot k = record {
  sized = k.sized;
  least = k.least;
  header = get_ext (p - 4) m m' (λ a l u. head a (omega arith) (omega arith)) ∙ k.header;
  footer =
      let least = k.least in
      get_ext (p + b.size - 8) m m' (λ a l u. foot a (omega arith) (omega arith)) ∙ k.footer;
}

-- A part of the row depends on the bytes from its first header on, or below its last footer.
pub Forward-above :
    (m m' : Bytes) (p e : ℕ) (bs : List Block)
    → 4 ≤ p
    → ((a : ℕ) → p ≤ a + 4 → a + 4 < e → m' a ≡ m a)
    → Forward m p bs e
    → Forward m' p bs e
Forward-above m m' p e [] low same f = f
Forward-above m m' p e (b ∷ bs) low same f =
    let far = Forward-le m (p + b.size) e bs f.1 in
    let least = f.0.least in
    (
      IsBlock-same m m' p b low (λ a l u. same a (omega arith) (omega arith))
          (λ a l u. same a (omega arith) (omega arith)) f.0,
      Forward-above m m' (p + b.size) e bs (omega arith)
          (λ a l u. same a (omega arith) (omega arith)) f.1,
    )

pub Backward-below :
    (m m' : Bytes) (s p : ℕ) (bs : List Block)
    → 4 ≤ s
    → ((a : ℕ) → s ≤ a + 4 → a + 4 < p → m' a ≡ m a)
    → Backward m s bs p
    → Backward m' s bs p
Backward-below m m' s p [] low same f = f
Backward-below m m' s p (b ∷ bs) low same f =
    let far = Backward-le m s (p - b.size) bs f.2 in
    let least = f.1.least in
    (
      f.0,
      IsBlock-same m m' (p - b.size) b (omega arith) (λ a l u. same a (omega arith) (omega arith))
          (λ a l u. same a (omega arith) (omega arith)) f.1,
      Backward-below m m' s (p - b.size) bs low (λ a l u. same a (omega arith) (omega arith)) f.2,
    )

-- The two tags of a block of `n` bytes at `p`, as addresses.
abbrev InTags : ℕ → ℕ → ℕ → Type 0
InTags p n a = ((p ≤ a + 4) × (a < p)) ⊎ ((p + n ≤ a + 8) × (a + 4 < p + n))

-- They lie outside of the links of that block and of all blocks before and after it.
tags_outside :
    (p n y a : ℕ)
    → 24 ≤ n
    → (y + 24 ≤ p) ⊎ (y ≡ p) ⊎ (p + n ≤ y)
    → InTags p n a
    → (a < y) ⊎ (y + 16 ≤ a)
tags_outside p n y a least place at = ground arith

module _ (Place : ℕ → Type 0) (m m' : Bytes) (quiet : Quiet Place m m') where
  IsBlock-Quiet :
      (p : ℕ) (b : Block)
      → 4 ≤ p
      → ((y : ℕ) → Place y → (y + 24 ≤ p) ⊎ (y ≡ p) ⊎ (p + b.size ≤ y))
      → IsBlock m p b
      → IsBlock m' p b
  IsBlock-Quiet p b low places k =
      IsBlock-same m m' p b low
        (λ a l u. quiet a (λ y h. tags_outside p b.size y a k.least (places y h) (inl (l, u))))
        (λ a l u. quiet a (λ y h. tags_outside p b.size y a k.least (places y h) (inr (l, u)))) k

  -- Writing links leaves the row, seen from any address.
  pub Forward-Quiet :
      (p e : ℕ) (bs : List Block)
      → 4 ≤ p
      → ((y : ℕ) → Place y → (y + 24 ≤ p) ⊎ AtForward p bs y)
      → Forward m p bs e
      → Forward m' p bs e
  Forward-Quiet p e [] low places f = f
  Forward-Quiet p e (b ∷ bs) low places f = (
    IsBlock-Quiet p b low (λ y h. here y (places y h)) f.0,
    Forward-Quiet (p + b.size) e bs (omega arith) (λ y h. onward y (places y h)) f.1,
  )
    where
      onward :
          (y : ℕ)
          → (y + 24 ≤ p) ⊎ (y ≡ p) ⊎ AtForward (p + b.size) bs y
          → (y + 24 ≤ p + b.size) ⊎ AtForward (p + b.size) bs y
      onward y (inl h) = inl (omega arith)
      onward y (inr (inl h)) = let least = f.0.least in inl (omega arith)
      onward y (inr (inr h)) = inr h

      here :
          (y : ℕ)
          → (y + 24 ≤ p) ⊎ (y ≡ p) ⊎ AtForward (p + b.size) bs y
          → (y + 24 ≤ p) ⊎ (y ≡ p) ⊎ (p + b.size ≤ y)
      here y (inl h) = inl h
      here y (inr (inl h)) = inr (inl h)
      here y (inr (inr h)) = inr (inr (AtForward-between m (p + b.size) e y bs f.1 h).0)

  pub Backward-Quiet :
      (s p : ℕ) (bs : List Block)
      → 4 ≤ s
      → ((y : ℕ) → Place y → (y + 24 ≤ s) ⊎ (p ≤ y) ⊎ AtBackward p bs y)
      → Backward m s bs p
      → Backward m' s bs p
  Backward-Quiet s p [] low places f = f
  Backward-Quiet s p (b ∷ bs) low places f = (
    f.0,
    IsBlock-Quiet (p - b.size) b (omega arith) (λ y h. here y (places y h)) f.1,
    Backward-Quiet s (p - b.size) bs low (λ y h. onward y (places y h)) f.2,
  )
    where
      onward :
          (y : ℕ)
          → (y + 24 ≤ s) ⊎ (p ≤ y) ⊎ (y ≡ p - b.size) ⊎ AtBackward (p - b.size) bs y
          → (y + 24 ≤ s) ⊎ (p - b.size ≤ y) ⊎ AtBackward (p - b.size) bs y
      onward y (inl h) = inl h
      onward y (inr (inl h)) = inr (inl (omega arith))
      onward y (inr (inr (inl h))) = inr (inl (omega arith))
      onward y (inr (inr (inr h))) = inr (inr h)

      here :
          (y : ℕ)
          → (y + 24 ≤ s) ⊎ (p ≤ y) ⊎ (y ≡ p - b.size) ⊎ AtBackward (p - b.size) bs y
          → (y + 24 ≤ p - b.size) ⊎ (y ≡ p - b.size) ⊎ (p - b.size + b.size ≤ y)
      here y (inl h) = inl (omega arith)
      here y (inr (inl h)) = inr (inr (omega arith))
      here y (inr (inr (inl h))) = inr (inl h)
      here y (inr (inr (inr h))) = inl (AtBackward-between m s (p - b.size) y bs f.2 h).1

pub Tiles-Quiet :
    (m m' : Bytes) (s e t : ℕ) (ls : List Block) (p : ℕ) (rs : List Block)
    → 4 ≤ s
    → t + 24 ≤ s
    → Quiet (Node t ls p rs) m m'
    → Tiles m s e ls p rs
    → Tiles m' s e ls p rs
Tiles-Quiet m m' s e t ls p rs low below quiet tiles = record {
  back = Backward-Quiet (Node t ls p rs) m m' quiet s p ls low (λ y h. from_back y h) tiles.back;
  front =
      Forward-Quiet (Node t ls p rs) m m' quiet p e rs (omega (arith, start))
        (λ y h. from_front y h) tiles.front;
}
  where
    start : s ≤ p
    start = Backward-le m s p ls tiles.back

    from_back : (y : ℕ) → Node t ls p rs y → (y + 24 ≤ s) ⊎ (p ≤ y) ⊎ AtBackward p ls y
    from_back y (inl h) = inl (omega arith)
    from_back y (inr (inl h)) = inr (inr h)
    from_back y (inr (inr h)) = inr (inl (AtForward-between m p e y rs tiles.front h).0)

    from_front : (y : ℕ) → Node t ls p rs y → (y + 24 ≤ p) ⊎ AtForward p rs y
    from_front y (inl h) = inl (omega (arith, start))
    from_front y (inr (inl h)) = inl (AtBackward-between m s p y ls tiles.back h).1
    from_front y (inr (inr h)) = inr h
