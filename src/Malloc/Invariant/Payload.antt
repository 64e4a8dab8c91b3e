-- ===== src/Malloc/Invariant/Payload.antt =====
-- What the user of mm.c stores in the payload of a block in use.
use computer_systems_labs.Base.{
  ℕ, ◌+◌, ◌-◌, ◌≤◌, ◌<◌, ◌≡◌, ◌⊎◌, inl, inr, refl, ◌∙◌, arith, true, Bool-cases, List, ◌∷◌,
}
use computer_systems_labs.Malloc.Bytes.{Bytes}
use computer_systems_labs.Malloc.Bytes.Laws.{read_ext}
use computer_systems_labs.Malloc.Heap.{Heap}
use computer_systems_labs.Malloc.Tags.{prev_free, next_free}
use computer_systems_labs.Malloc.Blocks.{
  Block, block, Node, Tiles, AtForward, AtBackward, free_backward,
}
use computer_systems_labs.Malloc.Blocks.Places.{
  Forward-le, Backward-le, AtForward-between, AtBackward-between,
}
use computer_systems_labs.Malloc.Blocks.Quiet.{get_ext, IsBlock-same, Forward-above, Backward-below}
use computer_systems_labs.Malloc.Blocks.Tagging.{IsFreeList-same}
use computer_systems_labs.Malloc.Blocks.Links.{has}
use computer_systems_labs.Malloc.Invariant.{IsRow, IsListed, first, prologue}
use computer_systems_labs.Malloc.Invariant.Links.{IsSeated-bytes, IsFreeList-over}
use computer_systems_labs.Malloc.Invariant.Hole.{free_backward-AtBackward, free_forward-AtForward}
use computer_systems_labs.Malloc.Invariant.Views.{IsViewed}

-- Only the payload of the block of `k` bytes at `p` was written: what lies between its tags.
abbrev pub Within : ℕ → ℕ → Bytes → Bytes → Type 0
Within p k m m' = (a : ℕ) → (a < p) ⊎ (p + k ≤ a + 8) → m' a ≡ m a

module _ (h : Heap) (ls : List Block) (p k : ℕ) (rs : List Block)
    (row : IsRow h ls p (block k true ∷ rs)) (m : Bytes) (within : Within p k h.bytes m) where
  abbrev written : Heap
  written = record h { bytes = m }

  above : first h ≤ p
  above = Backward-le h.bytes (first h) p ls row.tiles.back

  below : p + k ≤ h.brk.mem_brk
  below = Forward-le h.bytes (p + k) h.brk.mem_brk rs row.tiles.front.1

  least : 24 ≤ k
  least = row.tiles.front.0.least

  written-Tiles : Tiles m (first h) h.brk.mem_brk ls p (block k true ∷ rs)
  written-Tiles = record {
    back =
        Backward-below h.bytes m (first h) p ls (omega arith)
          (λ a lo hi. within a (inl (omega (hi, arith)))) row.tiles.back;
    front = (
      IsBlock-same h.bytes m p (block k true) (omega (above, arith)) (λ a lo hi. within a (inl hi))
          (λ a lo hi. within a (inr lo)) row.tiles.front.0,
      Forward-above h.bytes m (p + k) h.brk.mem_brk rs (omega (above, arith))
          (λ a lo hi. within a (inr (omega (lo, arith)))) row.tiles.front.1,
    );
  }

  written-IsRow : IsRow written ls p (block k true ∷ rs)
  written-IsRow = record {
    seat = IsSeated-bytes h m h.free_listp row.seat;
    edges = record {
      prologue_header =
          get_ext (h.heap_listp + 4) h.bytes m
            (λ a lo hi. within a (inl (omega (hi, above, arith))))
          ∙ row.edges.prologue_header;
      guard =
          get_ext (h.heap_listp + 40) h.bytes m
            (λ a lo hi. within a (inl (omega (hi, above, arith))))
          ∙ row.edges.guard;
      epilogue_header =
          get_ext (h.brk.mem_brk - 4) h.bytes m
            (λ a lo hi. within a (inr (omega (lo, below, arith))))
          ∙ row.edges.epilogue_header;
    };
    tiles = written-Tiles;
  }

  -- The places of links other than the block itself.
  abbrev Elsewhere : ℕ → Type 0
  Elsewhere y = (y ≡ prologue h) ⊎ AtBackward p ls y ⊎ AtForward (p + k) rs y

  apart : (y : ℕ) → Elsewhere y → (y + 16 ≤ p) ⊎ (p + k ≤ y)
  apart y (inl at) = inl (omega (at, above, arith))
  apart y (inr (inl at)) =
      let there = AtBackward-between h.bytes (first h) p y ls row.tiles.back at in
      inl (omega (there.1, arith))
  apart y (inr (inr at)) =
      inr (AtForward-between h.bytes (p + k) h.brk.mem_brk y rs row.tiles.front.1 at).0

  same_word :
      (y q : ℕ)
      → (y + 16 ≤ p) ⊎ (p + k ≤ y)
      → y ≤ q
      → q ≤ y + 8
      → (a : ℕ) → q ≤ a
      → a < q + 8
      → m a ≡ h.bytes a
  same_word y q (inl low) lo hi a l u = within a (inl (omega (low, hi, u, arith)))
  same_word y q (inr high) lo hi a l u = within a (inr (omega (high, lo, l, arith)))

  same_links :
      (y : ℕ)
      → Elsewhere y
      → (prev_free y m ≡ prev_free y h.bytes) × (next_free y m ≡ next_free y h.bytes)
  unfolding prev_free next_free
  same_links y at =
      let far = apart y at in
      (
        read_ext 8 y m h.bytes (same_word y y far (omega arith) (omega arith)),
        read_ext 8 (y + 8) m h.bytes (same_word y (y + 8) far (omega arith) (omega arith)),
      )

  written-IsListed :
      (xs : List ℕ)
      → IsListed h ls p (block k true ∷ rs) xs
      → IsListed written ls p (block k true ∷ rs) xs
  written-IsListed xs listed =
      let elsewhere : (y : ℕ) → has y xs ≡ true → AtBackward p ls y ⊎ AtForward (p + k) rs y =
        λ y here. elim (Bool-cases (free_backward p ls y)) [
          | inl before ↦ inl (free_backward-AtBackward p y ls before)
          | inr not_before ↦ inr (
              free_forward-AtForward (p + k) y rs
                (ground (arith, listed.members y, here, not_before)))
        ] in
      let chain = IsFreeList-same Elsewhere (prologue h) h written xs refl same_links (
        IsFreeList-over (Node (prologue h) ls p (block k true ∷ rs)) Elsewhere (prologue h) h xs
          (inl refl) (λ y here. inr (elsewhere y here)) listed.chain) in
      record {
        chain =
            IsFreeList-over Elsewhere (Node (prologue h) ls p (block k true ∷ rs)) (prologue h)
              written xs (inl refl)
              (λ y here. elim (elsewhere y here) [
                | inl before ↦ inr (inl before)
                | inr behind ↦ inr (inr (inr behind))
              ])
              chain;
        members = listed.members;
      }

-- A heap that keeps the invariant whatever is stored in the payload.
pub written-Viewed :
    (h : Heap) (ls : List Block) (p k : ℕ) (rs : List Block) (m : Bytes)
    → IsViewed h ls p (block k true ∷ rs)
    → Within p k h.bytes m
    → IsViewed (record h { bytes = m }) ls p (block k true ∷ rs)
written-Viewed h ls p k rs m (row, xs, listed) within = (
  written-IsRow h ls p k rs row m within,
  xs,
  written-IsListed h ls p k rs row m within xs listed,
)
