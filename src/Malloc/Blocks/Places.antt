-- ===== src/Malloc/Blocks/Places.antt =====
-- Blocks leave room between their addresses.
use computer_systems_labs.Base.{
  ℕ, ◌+◌, ◌-◌, ◌^◌, ◌≤◌, ◌<◌, ◌≡◌, ◌⊎◌, inl, inr, arith, List, [], ◌∷◌,
}
use computer_systems_labs.Malloc.Bytes.{Bytes}
use computer_systems_labs.Malloc.Bytes.Laws.{Apart}
use computer_systems_labs.Malloc.FreeList.Links.{Places}
use computer_systems_labs.Malloc.Blocks.{
  Block, Forward, Backward, AtForward, AtBackward, Node, Tiles,
}

pub Forward-le : (m : Bytes) (p e : ℕ) (bs : List Block) → Forward m p bs e → p ≤ e
Forward-le m p e [] f = omega arith
Forward-le m p e (b ∷ bs) f = omega (arith, Forward-le m (p + b.size) e bs f.1)

pub Backward-le : (m : Bytes) (s p : ℕ) (bs : List Block) → Backward m s bs p → s ≤ p
Backward-le m s p [] f = omega arith
Backward-le m s p (b ∷ bs) f = omega (arith, Backward-le m s (p - b.size) bs f.2)

-- A block from `p` on lies between `p` and `e`.
pub AtForward-between :
    (m : Bytes) (p e y : ℕ) (bs : List Block)
    → Forward m p bs e
    → AtForward p bs y
    → (p ≤ y) × (y + 24 ≤ e)
AtForward-between m p e y [] f h = absurd h
AtForward-between m p e y (b ∷ bs) f (inl h) =
    let far = Forward-le m (p + b.size) e bs f.1 in let least = f.0.least in omega arith
AtForward-between m p e y (b ∷ bs) f (inr h) =
    let far = AtForward-between m (p + b.size) e y bs f.1 h in omega arith

pub AtBackward-between :
    (m : Bytes) (s p y : ℕ) (bs : List Block)
    → Backward m s bs p
    → AtBackward p bs y
    → (s ≤ y) × (y + 24 ≤ p)
AtBackward-between m s p y [] f h = absurd h
AtBackward-between m s p y (b ∷ bs) f (inl h) = let least = f.1.least in omega arith
AtBackward-between m s p y (b ∷ bs) f (inr h) =
    let far = AtBackward-between m s (p - b.size) y bs f.2 h in omega arith

Spaced : ℕ → ℕ → Type 0
Spaced x y = (x ≡ y) ⊎ Apart 16 x 16 y

AtForward-Spaced :
    (m : Bytes) (p e x y : ℕ) (bs : List Block)
    → Forward m p bs e
    → AtForward p bs x
    → AtForward p bs y
    → Spaced x y
unfolding Spaced
AtForward-Spaced m p e x y [] f hx hy = absurd hx
AtForward-Spaced m p e x y (b ∷ bs) f (inl hx) (inl hy) = inl (omega arith)
AtForward-Spaced m p e x y (b ∷ bs) f (inl hx) (inr hy) =
    let far = AtForward-between m (p + b.size) e y bs f.1 hy in
    let least = f.0.least in inr (inl (omega arith))
AtForward-Spaced m p e x y (b ∷ bs) f (inr hx) (inl hy) =
    let far = AtForward-between m (p + b.size) e x bs f.1 hx in
    let least = f.0.least in inr (inr (omega arith))
AtForward-Spaced m p e x y (b ∷ bs) f (inr hx) (inr hy) =
    AtForward-Spaced m (p + b.size) e x y bs f.1 hx hy

AtBackward-Spaced :
    (m : Bytes) (s p x y : ℕ) (bs : List Block)
    → Backward m s bs p
    → AtBackward p bs x
    → AtBackward p bs y
    → Spaced x y
unfolding Spaced
AtBackward-Spaced m s p x y [] f hx hy = absurd hx
AtBackward-Spaced m s p x y (b ∷ bs) f (inl hx) (inl hy) = inl (omega arith)
AtBackward-Spaced m s p x y (b ∷ bs) f (inl hx) (inr hy) =
    let far = AtBackward-between m s (p - b.size) y bs f.2 hy in inr (inr (omega arith))
AtBackward-Spaced m s p x y (b ∷ bs) f (inr hx) (inl hy) =
    let far = AtBackward-between m s (p - b.size) x bs f.2 hx in inr (inl (omega arith))
AtBackward-Spaced m s p x y (b ∷ bs) f (inr hx) (inr hy) =
    AtBackward-Spaced m s (p - b.size) x y bs f.2 hx hy

module _ (m : Bytes) (s e t : ℕ) (ls : List Block) (p : ℕ) (rs : List Block)
    (tiles : Tiles m s e ls p rs) (real : 0 < t) (below : t + 24 ≤ s) (fits : e < 2 ^ 63) where
  -- Where a node stands: it is the prologue, or lies before `p`, or from `p` on.
  pub Node-bounds :
      (y : ℕ) → Node t ls p rs y → (y ≡ t) ⊎ ((s ≤ y) × (y + 24 ≤ p)) ⊎ ((p ≤ y) × (y + 24 ≤ e))
  Node-bounds y (inl h) = inl h
  Node-bounds y (inr (inl h)) = inr (inl (AtBackward-between m s p y ls tiles.back h))
  Node-bounds y (inr (inr h)) = inr (inr (AtForward-between m p e y rs tiles.front h))

  -- The prologue stands apart from the blocks.
  prologue-Spaced :
      (x y : ℕ)
      → x ≡ t
      → (y ≡ t) ⊎ ((s ≤ y) × (y + 24 ≤ p)) ⊎ ((p ≤ y) × (y + 24 ≤ e))
      → Spaced x y × Spaced y x
  unfolding Spaced
  prologue-Spaced x y hx by =
      let start = Backward-le m s p ls tiles.back in (ground arith, ground arith)

  Node-Spaced : (x y : ℕ) → Node t ls p rs x → Node t ls p rs y → Spaced x y
  unfolding Spaced
  Node-Spaced x y (inr (inl hx)) (inr (inl hy)) = AtBackward-Spaced m s p x y ls tiles.back hx hy
  Node-Spaced x y (inr (inr hx)) (inr (inr hy)) = AtForward-Spaced m p e x y rs tiles.front hx hy
  Node-Spaced x y (inl hx) hy = (prologue-Spaced x y hx (Node-bounds y hy)).0
  Node-Spaced x y (inr (inl hx)) (inl hy) =
      (prologue-Spaced y x hy (Node-bounds x (inr (inl hx)))).1
  Node-Spaced x y (inr (inl hx)) (inr (inr hy)) =
      let bx = AtBackward-between m s p x ls tiles.back hx in
      let by = AtForward-between m p e y rs tiles.front hy in inr (inl (omega arith))
  Node-Spaced x y (inr (inr hx)) (inl hy) =
      (prologue-Spaced y x hy (Node-bounds x (inr (inr hx)))).1
  Node-Spaced x y (inr (inr hx)) (inr (inl hy)) =
      let bx = AtForward-between m p e x rs tiles.front hx in
      let by = AtBackward-between m s p y ls tiles.back hy in inr (inr (omega arith))

  pub tiles-Places : Places (Node t ls p rs)
  unfolding Spaced
  tiles-Places = record {
    spaced = Node-Spaced;
    not_null = λ y h. ground (arith, Node-bounds y h, Backward-le m s p ls tiles.back);
    fits = λ y h.
        ground (
          arith,
          Node-bounds y h,
          Backward-le m s p ls tiles.back,
          Forward-le m p e rs tiles.front,
        );
  }
