-- ===== src/Malloc/Invariant/Cut.antt =====
-- `place` of mm.c where it cuts a block: the front gets its tags, and the rest is a hole.
use mathlib.Core.Path.{subst}
use computer_systems_labs.Base.{
  ℕ, ◌+◌, ◌-◌, ◌≤◌, ◌≡◌, ◌⊎◌, inl, inr, refl, ◌∙◌, arith, true, false, List, ◌∷◌,
}
use computer_systems_labs.Malloc.Bytes.{Bytes}
use computer_systems_labs.Malloc.Heap.{Heap}
use computer_systems_labs.Malloc.Tags.{pack}
use computer_systems_labs.Malloc.Tags.Laws.{IsSize}
use computer_systems_labs.Malloc.FreeList.Operations.{IsFreeList}
use computer_systems_labs.Malloc.Alloc.{set_tags}
use computer_systems_labs.Malloc.Blocks.{
  Block, block, IsBlock, Node, Forward, Backward, AtForward, AtBackward,
}
use computer_systems_labs.Malloc.Blocks.Places.{
  Forward-le, Backward-le, AtForward-between, AtBackward-between,
}
use computer_systems_labs.Malloc.Blocks.Quiet.{
  Quiet, get_ext, Forward-above, Backward-below, Forward-Quiet, Backward-Quiet,
}
use computer_systems_labs.Malloc.Blocks.Tagging.{
  tagged, set_tags_lem, tagged-outside, tagged-IsBlock, tagged-links, IsFreeList-same,
}
use computer_systems_labs.Malloc.Invariant.{IsRow, first, prologue}
use computer_systems_labs.Malloc.Invariant.Links.{IsSeated-bytes}
use computer_systems_labs.Malloc.Invariant.Hole.{IsHole}

-- A change of links leaves the blocks around a hole.
module _ (h : Heap) (ls : List Block) (p n : ℕ) (rs : List Block) (hole : IsHole h ls p n rs)
    (m : Bytes) (f : ℕ)
    (quiet : Quiet (Node (prologue h) ls p (block n false ∷ rs)) h.bytes m) where
  above : first h ≤ p
  above = Backward-le h.bytes (first h) p ls hole.back

  below : p + n ≤ h.brk.mem_brk
  below = Forward-le h.bytes (p + n) h.brk.mem_brk rs hole.front

  bounds :
      (y : ℕ)
      → Node (prologue h) ls p (block n false ∷ rs) y
      → (y ≡ prologue h) ⊎ ((first h ≤ y) × (y + 24 ≤ h.brk.mem_brk))
  bounds y (inl at) = inl at
  bounds y (inr (inl at)) =
      let far = AtBackward-between h.bytes (first h) p y ls hole.back at in
      inr (far.0, omega (far.1, below, arith))
  bounds y (inr (inr (inl at))) =
      let least = hole.least in inr (omega (at, above, arith), omega (at, below, least, arith))
  bounds y (inr (inr (inr at))) =
      let far = AtForward-between h.bytes (p + n) h.brk.mem_brk y rs hole.front at in
      inr (omega (far.0, above, arith), far.1)

  from_back :
      (y : ℕ)
      → Node (prologue h) ls p (block n false ∷ rs) y
      → (y + 24 ≤ first h) ⊎ (p ≤ y) ⊎ AtBackward p ls y
  from_back y (inl at) = inl (omega (at, arith))
  from_back y (inr (inl at)) = inr (inr at)
  from_back y (inr (inr (inl at))) = inr (inl (omega (at, arith)))
  from_back y (inr (inr (inr at))) =
      let far = AtForward-between h.bytes (p + n) h.brk.mem_brk y rs hole.front at in
      inr (inl (omega (far.0, arith)))

  from_front :
      (y : ℕ)
      → Node (prologue h) ls p (block n false ∷ rs) y
      → (y + 24 ≤ p + n) ⊎ AtForward (p + n) rs y
  from_front y (inl at) = inl (omega (at, above, arith))
  from_front y (inr (inl at)) =
      let far = AtBackward-between h.bytes (first h) p y ls hole.back at in
      inl (omega (far.1, arith))
  from_front y (inr (inr (inl at))) = let least = hole.least in inl (omega (at, least, arith))
  from_front y (inr (inr (inr at))) = inr at

  pub Quiet-IsHole : IsHole (record h { bytes = m; free_listp = f }) ls p n rs
  Quiet-IsHole = record {
    seat = IsSeated-bytes h m f hole.seat;
    edges = record {
      prologue_header =
          get_ext (h.heap_listp + 4) h.bytes m
            (λ a lo hi. quiet a (λ y at. ground (arith, bounds y at, lo, hi)))
          ∙ hole.edges.prologue_header;
      guard =
          get_ext (h.heap_listp + 40) h.bytes m
            (λ a lo hi. quiet a (λ y at. ground (arith, bounds y at, lo, hi)))
          ∙ hole.edges.guard;
      epilogue_header =
          get_ext (h.brk.mem_brk - 4) h.bytes m
            (λ a lo hi. quiet a (λ y at. ground (arith, bounds y at, above, below, lo, hi)))
          ∙ hole.edges.epilogue_header;
    };
    back =
        Backward-Quiet (Node (prologue h) ls p (block n false ∷ rs)) h.bytes m quiet (first h) p ls
          (omega arith) from_back hole.back;
    front =
        Forward-Quiet (Node (prologue h) ls p (block n false ∷ rs)) h.bytes m quiet (p + n)
          h.brk.mem_brk rs (omega (above, arith)) from_front hole.front;
    sized = hole.sized;
    least = hole.least;
  }

module _ (h : Heap) (ls : List Block) (p a n : ℕ) (rs : List Block)
    (row : IsRow h ls p (block (a + n) false ∷ rs)) (sized : IsSize a) (least : 24 ≤ a)
    (rest : 24 ≤ n) where
  start : first h ≤ p
  start = Backward-le h.bytes (first h) p ls row.tiles.back

  end : p + (a + n) ≤ h.brk.mem_brk
  end = Forward-le h.bytes (p + (a + n)) h.brk.mem_brk rs row.tiles.front.1

  -- The heap with the tags of the front.
  abbrev cut : Heap
  cut = record h { bytes = tagged p a (pack a 1) h.bytes }

  cut-IsHole : IsHole cut (block a true ∷ ls) (p + a) n rs
  cut-IsHole =
      let out = tagged-outside p a true (omega (start, arith)) sized least h.bytes in
      let there : p + (a + n) ≡ p + a + n = omega arith in
      let back_at : p ≡ p + a - a = omega arith in
      record {
        seat = IsSeated-bytes h cut.bytes h.free_listp row.seat;
        edges = record {
          prologue_header =
              get_ext (h.heap_listp + 4) h.bytes cut.bytes (λ b lo hi.
                out b (inl (omega (start, lo, hi, arith)))
                  (inl (omega (start, lo, hi, least, arith))))
              ∙ row.edges.prologue_header;
          guard =
              get_ext (h.heap_listp + 40) h.bytes cut.bytes (λ b lo hi.
                out b (inl (omega (start, lo, hi, arith)))
                  (inl (omega (start, lo, hi, least, arith))))
              ∙ row.edges.guard;
          epilogue_header =
              get_ext (h.brk.mem_brk - 4) h.bytes cut.bytes (λ b lo hi.
                out b (inr (omega (start, end, lo, hi, rest, arith)))
                  (inr (omega (start, end, lo, hi, rest, arith))))
              ∙ row.edges.epilogue_header;
        };
        back = (
          omega (start, arith),
          subst (λ q. IsBlock cut.bytes q (block a true)) back_at
              (tagged-IsBlock p a true (omega (start, arith)) sized least h.bytes),
          subst (λ q. Backward cut.bytes (first h) ls q) back_at
              (Backward-below h.bytes cut.bytes (first h) p ls (omega arith)
                (λ b lo hi. out b (inl hi) (inl (omega (lo, hi, least, arith)))) row.tiles.back),
        );
        front =
            subst (λ q. Forward cut.bytes q rs h.brk.mem_brk) there
              (Forward-above h.bytes cut.bytes (p + (a + n)) h.brk.mem_brk rs (omega (start, arith))
                (λ b lo hi.
                  out b (inr (omega (lo, least, rest, arith))) (inr (omega (lo, rest, arith))))
                row.tiles.front.1);
        sized = record {
          fits = let whole = row.tiles.front.0.sized.fits in omega (whole, arith);
          eights = let whole = row.tiles.front.0.sized.eights in omega (whole, sized.eights, arith);
        };
        least = rest;
      }

  clear :
      (y : ℕ)
      → Node (prologue h) ls p (block (a + n) false ∷ rs) y
      → (y + 24 ≤ p) ⊎ (y ≡ p) ⊎ (p + a ≤ y)
  clear y (inl at) = inl (omega (at, start, arith))
  clear y (inr (inl at)) = inl (AtBackward-between h.bytes (first h) p y ls row.tiles.back at).1
  clear y (inr (inr (inl at))) = inr (inl at)
  clear y (inr (inr (inr at))) =
      let far = AtForward-between h.bytes (p + (a + n)) h.brk.mem_brk y rs row.tiles.front.1 at in
      inr (inr (omega (far.0, arith)))

  -- The front's tags leave a hole behind it, and the free list as it was.
  pub set_tags-IsHole :
      (xs : List ℕ)
      → IsFreeList (Node (prologue h) ls p (block (a + n) false ∷ rs)) (prologue h) h xs
      → (m : Bytes) × (set_tags p a 1 h ≡ record h { bytes = m })
        × IsHole (record h { bytes = m }) (block a true ∷ ls) (p + a) n rs
        × IsFreeList
            (Node (prologue h) ls p (block (a + n) false ∷ rs))
            (prologue h)
            (record h { bytes = m })
            xs
  set_tags-IsHole xs chain = (
    cut.bytes,
    set_tags_lem p a true (omega (start, arith)) sized least h,
    cut-IsHole,
    IsFreeList-same (Node (prologue h) ls p (block (a + n) false ∷ rs)) (prologue h) h cut xs refl
        (λ y at. tagged-links p a true (omega (start, arith)) sized least h.bytes y (clear y at))
        chain,
  )
