-- ===== src/Malloc/Invariant/Links.antt =====
-- A change of links leaves the row of blocks with its edges; `removeBlock` of mm.c is such a change.
use mathlib.Core.Path.{subst}
use computer_systems_labs.Base.{
  ℕ, ◌+◌, ◌-◌, ◌≡◌, inl, inr, refl, sym, ◌∙◌, arith, true, not, Bool-cases, ◌==◌, ◌&&◌, List, ◌∷◌,
  ◌++◌,
}
use computer_systems_labs.Malloc.Bytes.{Bytes}
use computer_systems_labs.Malloc.Heap.{Heap}
use computer_systems_labs.Malloc.Tags.{prev_free}
use computer_systems_labs.Malloc.FreeList.{unlink_before, remove_block}
use computer_systems_labs.Malloc.FreeList.Links.{Places}
use computer_systems_labs.Malloc.FreeList.Operations.{IsFreeList, remove_block-IsFreeList}
use computer_systems_labs.Malloc.Blocks.{Block, Node}
use computer_systems_labs.Malloc.Blocks.Places.{Forward-le, Backward-le, Node-bounds, tiles-Places}
use computer_systems_labs.Malloc.Blocks.Quiet.{Quiet, Tiles-Quiet, get_ext}
use computer_systems_labs.Malloc.Blocks.Links.{
  remove_block-Quiet, has, split_at, has-remove, All-of_has,
}
use computer_systems_labs.Malloc.Invariant.{IsEdged, IsSeated, IsRow, first, prologue}

-- Where the heap lies does not depend on its content.
pub IsSeated-bytes :
    (h : Heap) (m : Bytes) (f : ℕ) → IsSeated h → IsSeated (record h { bytes = m; free_listp = f })
IsSeated-bytes h m f seat = record {
  brk_ok = seat.brk_ok;
  based = seat.based;
  aligned = seat.aligned;
  limit = seat.limit;
}

module _ (h : Heap) (ls : List Block) (p : ℕ) (rs : List Block) (row : IsRow h ls p rs) where
  pub row-Places : Places (Node (prologue h) ls p rs)
  row-Places =
      tiles-Places h.bytes (first h) h.brk.mem_brk (prologue h) ls p rs row.tiles (omega arith)
        (omega arith) (omega (row.seat.brk_ok.below, row.seat.limit, arith))

  Quiet-IsEdged :
      (m : Bytes)
      → Quiet (Node (prologue h) ls p rs) h.bytes m
      → IsEdged m h.heap_listp h.brk.mem_brk
  Quiet-IsEdged m quiet =
      let above = Backward-le h.bytes (first h) p ls row.tiles.back in
      let below = Forward-le h.bytes p h.brk.mem_brk rs row.tiles.front in
      let bounds =
        Node-bounds h.bytes (first h) h.brk.mem_brk (prologue h) ls p rs row.tiles (omega arith)
          (omega arith) (omega (row.seat.brk_ok.below, row.seat.limit, arith)) in
      record {
        prologue_header =
            get_ext (h.heap_listp + 4) h.bytes m
              (λ a lo hi. quiet a (λ y at. ground (arith, bounds y at, lo, hi)))
            ∙ row.edges.prologue_header;
        guard =
            get_ext (h.heap_listp + 40) h.bytes m
              (λ a lo hi. quiet a (λ y at. ground (arith, bounds y at, above, lo, hi)))
            ∙ row.edges.guard;
        epilogue_header =
            get_ext (h.brk.mem_brk - 4) h.bytes m
              (λ a lo hi. quiet a (λ y at. ground (arith, bounds y at, above, below, lo, hi)))
            ∙ row.edges.epilogue_header;
      }

  -- The row with other links.
  pub Quiet-IsRow :
      (m : Bytes) (f : ℕ)
      → Quiet (Node (prologue h) ls p rs) h.bytes m
      → IsRow (record h { bytes = m; free_listp = f }) ls p rs
  Quiet-IsRow m f quiet = record {
    seat = IsSeated-bytes h m f row.seat;
    edges = Quiet-IsEdged m quiet;
    tiles =
        Tiles-Quiet h.bytes m (first h) h.brk.mem_brk (prologue h) ls p rs (omega arith)
          (omega arith) quiet row.tiles;
  }

-- It changes nothing but the storage and the start of the list.
pub remove_block_form :
    (bp : ℕ) (h : Heap)
    → remove_block bp h
      ≡ record h { bytes = (remove_block bp h).bytes; free_listp = (remove_block bp h).free_listp }
unfolding remove_block unlink_before
remove_block_form bp h = elim (Bool-cases (prev_free bp h.bytes == 0)) [
  | inl none_before ↦ rw (none_before) refl
  | inr some_before ↦ rw (some_before) refl
]

-- Taking a block out of the free list keeps the row, and leaves the other nodes on the list.
pub remove_block-IsRow :
    (h : Heap) (ls : List Block) (p : ℕ) (rs : List Block) (x : ℕ) (xs : List ℕ)
    → IsRow h ls p rs
    → IsFreeList (Node (prologue h) ls p rs) (prologue h) h xs
    → has x xs ≡ true
    → (m : Bytes) × (f : ℕ) × (ys : List ℕ) × (remove_block x h
        ≡ record h { bytes = m; free_listp = f })
      × IsRow (record h { bytes = m; free_listp = f }) ls p rs
      × IsFreeList
          (Node (prologue h) ls p rs)
          (prologue h)
          (record h { bytes = m; free_listp = f })
          ys
      × ((y : ℕ) → has y ys ≡ (not (y == x) && has y xs))
remove_block-IsRow h ls p rs x xs row chain listed =
    let Place = Node (prologue h) ls p rs in
    let places = row-Places h ls p rs row in
    let (before, after, cut) = split_at x xs listed in
    let m = (remove_block x h).bytes in
    let f = (remove_block x h).free_listp in
    let cut_chain : IsFreeList Place (prologue h) h (before ++ x ∷ after) =
      subst (λ l. IsFreeList Place (prologue h) h l) cut chain in
    let removed = remove_block-IsFreeList places (prologue h) h before after x cut_chain in
    let quiet = remove_block-Quiet Place places (prologue h) h before after x cut_chain in
    (
      m,
      f,
      before ++ after,
      remove_block_form x h,
      Quiet-IsRow h ls p rs row m f quiet,
      subst (λ g. IsFreeList Place (prologue h) g (before ++ after)) (remove_block_form x h)
          removed,
      λ y.
          subst (λ l. has y (before ++ after) ≡ (not (y == x) && has y l)) (sym cut)
            (has-remove (prologue h) x y before after cut_chain.distinct),
    )

-- The free list over other places for its nodes.
pub IsFreeList-over :
    (P Q : ℕ → Type 0) (t : ℕ) (h : Heap) (xs : List ℕ)
    → Q t
    → ((y : ℕ) → has y xs ≡ true → Q y)
    → IsFreeList P t h xs
    → IsFreeList Q t h xs
IsFreeList-over P Q t h xs end nodes l = record {
  start = l.start;
  links = l.links;
  nodes = All-of_has Q xs nodes;
  end_node = end;
  distinct = l.distinct;
}
