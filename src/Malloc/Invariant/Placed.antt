-- ===== src/Malloc/Invariant/Placed.antt =====
-- `place` of mm.c on a free block that is large enough.
use mathlib.Core.Path.{subst}
use computer_systems_labs.Base.{
  ℕ, ◌+◌, ◌-◌, ◌%◌, ◌^◌, ◌≤◌, ◌<◌, ◌≡◌, ◌⊎◌, inl, inr, arith, true, false, Bool-cases, leb, List,
  ◌∷◌,
}
use computer_systems_labs.Malloc.Heap.{Heap}
use computer_systems_labs.Malloc.Tags.{minimum}
use computer_systems_labs.Malloc.Tags.Laws.{IsSize}
use computer_systems_labs.Malloc.Alloc.{place}
use computer_systems_labs.Malloc.Blocks.{Block, block}
use computer_systems_labs.Malloc.Invariant.{IsRow, IsListed}
use computer_systems_labs.Malloc.Invariant.Edges.{here-size}
use computer_systems_labs.Malloc.Invariant.Release.{Coalesced}
use computer_systems_labs.Malloc.Invariant.Place.{whole-IsListed, cut-Coalesced}

-- What `place` leaves: the whole block in use, or a front of `a` bytes in use and a free block that
-- has the rest.
abbrev pub Placed : Heap → List Block → ℕ → ℕ → ℕ → List Block → Type 0
Placed g ls p a c rs =
    ((c < a + 24)
      × IsRow g ls p (block c true ∷ rs)
      × (ys : List ℕ) × IsListed g ls p (block c true ∷ rs) ys)
    ⊎ (a + 24 ≤ c) × Coalesced g (block a true ∷ ls) (p + a) (c - a) rs

module _ (h : Heap) (ls : List Block) (p a c : ℕ) (rs : List Block)
    (row : IsRow h ls p (block c false ∷ rs)) (least : 24 ≤ a) (room : a ≤ c) where
  left_over : (c + 2 ^ 64 - a) % 2 ^ 64 ≡ c - a
  left_over = let fits = row.tiles.front.0.sized.fits in omega (fits, room, arith)

  place-whole :
      (xs : List ℕ)
      → IsListed h ls p (block c false ∷ rs) xs
      → c < a + 24
      → IsRow (place p a h) ls p (block c true ∷ rs)
        × (ys : List ℕ) × IsListed (place p a h) ls p (block c true ∷ rs) ys
  unfolding place
  place-whole xs listed small =
      let (g, ys, e, row1, listed1) = whole-IsListed h ls p c rs xs row listed in
      let no_rest : leb minimum (c - a) ≡ false = ground (arith, small) in
      rw (here-size h ls p c false rs row, left_over, no_rest, e) (row1, ys, listed1)

-- In a heap that blocks with equal tags fill from edge to edge, and whose free list holds the free
-- blocks and no others, `place` of `a` bytes, a block size, in a free block of at least `a` bytes keeps
-- both. With less than 24 bytes over it takes the whole block; otherwise it takes the first `a` bytes,
-- and the rest is a free block, joined to the block behind it where that is free. The other blocks are
-- as they were.
pub place-Placed :
    (h : Heap) (ls : List Block) (p a c : ℕ) (rs : List Block) (xs : List ℕ)
    → IsRow h ls p (block c false ∷ rs)
    → IsListed h ls p (block c false ∷ rs) xs
    → IsSize a
    → 24 ≤ a
    → a ≤ c
    → Placed (place p a h) ls p a c rs
unfolding place
place-Placed h ls p a c rs xs row listed sized least room = elim (Bool-cases (leb (a + 24) c)) [
  | inr small ↦
      let short : c < a + 24 = ground (arith, small) in
      let (row1, ys, listed1) = place-whole h ls p a c rs row least room xs listed short in
      inl (short, row1, ys, listed1)
  | inl large ↦
      let over : a + 24 ≤ c = ground (arith, large) in
      let whole : c ≡ a + (c - a) = omega (room, arith) in
      let row1 = subst (λ k. IsRow h ls p (block k false ∷ rs)) whole row in
      let listed1 = subst (λ k. IsListed h ls p (block k false ∷ rs) xs) whole listed in
      let (g, e, done) =
        cut-Coalesced h ls p a (c - a) rs xs row1 listed1 sized least (omega (over, arith)) in
      let rest : leb minimum (c - a) ≡ true = ground (arith, over) in
      inr (
        over,
        rw (here-size h ls p c false rs row, left_over h ls p a c rs row least room, rest, e) done,
      )
]
