-- ===== src/Malloc/Invariant/Hole.antt =====
-- A free block of mm.c on its way to the free list: it gets its tags, and `insertBlock` lists it.
use computer_systems_labs.Base.{
  ℕ, ◌+◌, ◌-◌, ◌≤◌, ◌≡◌, ◌⊎◌, inl, inr, refl, ◌∙◌, arith, Bool, true, false, Bool-cases, ◌==◌, ◌||◌,
  List, [], ◌∷◌,
}
use computer_systems_labs.Malloc.Bytes.{Bytes}
use computer_systems_labs.Malloc.Heap.{Heap}
use computer_systems_labs.Malloc.Tags.{pack}
use computer_systems_labs.Malloc.Tags.Laws.{IsSize}
use computer_systems_labs.Malloc.FreeList.{insert_block}
use computer_systems_labs.Malloc.FreeList.Splice.{head_or-satisfies}
use computer_systems_labs.Malloc.FreeList.Operations.{IsFreeList, insert_block-IsFreeList}
use computer_systems_labs.Malloc.Alloc.{set_tags}
use computer_systems_labs.Malloc.Blocks.{
  Block, block, bit, Node, Forward, Backward, AtForward, AtBackward, free_forward, free_backward,
}
use computer_systems_labs.Malloc.Blocks.Places.{
  Forward-le, Backward-le, AtForward-between, AtBackward-between,
}
use computer_systems_labs.Malloc.Blocks.Quiet.{get_ext}
use computer_systems_labs.Malloc.Blocks.Tagging.{
  tagged, set_tags_lem, tagged-outside, tagged-Tiles, tagged-links, IsFreeList-same,
}
use computer_systems_labs.Malloc.Blocks.Links.{insert_block-Quiet, has, All-ne_of_not_has}
use computer_systems_labs.Malloc.Invariant.{IsEdged, IsSeated, IsRow, IsListed, first, prologue}
use computer_systems_labs.Malloc.Invariant.Members.{
  free_backward-below, free_forward-above, join_member,
}
use computer_systems_labs.Malloc.Invariant.Links.{IsSeated-bytes, row-Places, Quiet-IsRow}

pub free_backward-AtBackward :
    (p y : ℕ) (bs : List Block) → free_backward p bs y ≡ true → AtBackward p bs y
free_backward-AtBackward p y [] h = ground (arith, h)
free_backward-AtBackward p y (b ∷ bs) h = elim (Bool-cases (y == p - b.size)) [
  | inl here ↦ inl (ground (arith, here))
  | inr other ↦ inr (free_backward-AtBackward (p - b.size) y bs (ground (arith, other, h)))
]

pub free_forward-AtForward :
    (p y : ℕ) (bs : List Block) → free_forward p bs y ≡ true → AtForward p bs y
free_forward-AtForward p y [] h = ground (arith, h)
free_forward-AtForward p y (b ∷ bs) h = elim (Bool-cases (y == p)) [
  | inl here ↦ inl (ground (arith, here))
  | inr other ↦ inr (free_forward-AtForward (p + b.size) y bs (ground (arith, other, h)))
]

-- The blocks fill the heap but for the `n` bytes at `p`, whose tags are not known.
pub record IsHole (h : Heap) (ls : List Block) (p n : ℕ) (rs : List Block) : Type 0 where
  pub seat : IsSeated h
  pub edges : IsEdged h.bytes h.heap_listp h.brk.mem_brk
  pub back : Backward h.bytes (first h) ls p
  pub front : Forward h.bytes (p + n) rs h.brk.mem_brk
  pub sized : IsSize n
  pub least : 24 ≤ n

-- The free list has the free blocks of `ls` and `rs`, but nothing in the `n` bytes at `p`.
pub record IsPending (h : Heap) (ls : List Block) (p n : ℕ) (rs : List Block) (xs : List ℕ)
    : Type 0 where
  pub chain : IsFreeList (Node (prologue h) ls p (block n false ∷ rs)) (prologue h) h xs
  pub members : (y : ℕ) → has y xs ≡ (free_backward p ls y || free_forward (p + n) rs y)

module _ (h : Heap) (ls : List Block) (p n : ℕ) (rs : List Block) (hole : IsHole h ls p n rs) where
  above : first h ≤ p
  above = Backward-le h.bytes (first h) p ls hole.back

  below : p + n ≤ h.brk.mem_brk
  below = Forward-le h.bytes (p + n) h.brk.mem_brk rs hole.front

  -- The heap with the tags of a block.
  abbrev marked : Bool → Heap
  marked u = record h { bytes = tagged p n (pack n (bit u)) h.bytes }

  marked-IsEdged : (u : Bool) → IsEdged (marked u).bytes h.heap_listp h.brk.mem_brk
  marked-IsEdged u =
      let least = hole.least in
      let out = tagged-outside p n u (omega (above, arith)) hole.sized least h.bytes in
      record {
        prologue_header =
            get_ext (h.heap_listp + 4) h.bytes (marked u).bytes (λ a lo hi.
              out a (inl (omega (above, lo, hi, arith)))
                (inl (omega (above, lo, hi, least, arith))))
            ∙ hole.edges.prologue_header;
        guard =
            get_ext (h.heap_listp + 40) h.bytes (marked u).bytes (λ a lo hi.
              out a (inl (omega (above, lo, hi, arith)))
                (inl (omega (above, lo, hi, least, arith))))
            ∙ hole.edges.guard;
        epilogue_header =
            get_ext (h.brk.mem_brk - 4) h.bytes (marked u).bytes (λ a lo hi.
              out a (inr (omega (above, below, lo, hi, least, arith)))
                (inr (omega (above, below, lo, hi, least, arith))))
            ∙ hole.edges.epilogue_header;
      }

  marked-IsRow : (u : Bool) → IsRow (marked u) ls p (block n u ∷ rs)
  marked-IsRow u = record {
    seat = IsSeated-bytes h (marked u).bytes h.free_listp hole.seat;
    edges = marked-IsEdged u;
    tiles =
        tagged-Tiles p n u (omega (above, arith)) hole.sized hole.least h.bytes (first h)
          h.brk.mem_brk ls rs (omega arith) hole.back hole.front;
  }

  -- Nodes keep clear of the tags.
  clear :
      (y : ℕ) → Node (prologue h) ls p (block n false ∷ rs) y → (y + 24 ≤ p) ⊎ (y ≡ p) ⊎ (p + n ≤ y)
  clear y (inl at) = inl (omega (at, above, arith))
  clear y (inr (inl at)) = inl (AtBackward-between h.bytes (first h) p y ls hole.back at).1
  clear y (inr (inr (inl at))) = inr (inl at)
  clear y (inr (inr (inr at))) =
      inr (inr (AtForward-between h.bytes (p + n) h.brk.mem_brk y rs hole.front at).0)

  -- The two stores of a header and a footer fill the hole with a block, and leave the free list.
  pub set_tags-IsRow :
      (u : Bool) (xs : List ℕ)
      → IsFreeList (Node (prologue h) ls p (block n false ∷ rs)) (prologue h) h xs
      → (m : Bytes) × (set_tags p n (bit u) h ≡ record h { bytes = m })
        × IsRow (record h { bytes = m }) ls p (block n u ∷ rs)
        × IsFreeList
            (Node (prologue h) ls p (block n false ∷ rs))
            (prologue h)
            (record h { bytes = m })
            xs
  set_tags-IsRow u xs chain = (
    (marked u).bytes,
    set_tags_lem p n u (omega (above, arith)) hole.sized hole.least h,
    marked-IsRow u,
    IsFreeList-same (Node (prologue h) ls p (block n false ∷ rs)) (prologue h) h (marked u) xs refl
        (λ y at.
          tagged-links p n u (omega (above, arith)) hole.sized hole.least h.bytes y (clear y at))
        chain,
  )

  -- The same for a free block that is not listed yet.
  pub set_tags-IsPending :
      (xs : List ℕ)
      → IsPending h ls p n rs xs
      → (g : Heap) × (set_tags p n 0 h ≡ g)
        × IsRow g ls p (block n false ∷ rs)
        × IsPending g ls p n rs xs
  set_tags-IsPending xs pending =
      let (m, e, row, chain) = set_tags-IsRow false xs pending.chain in
      (record h { bytes = m }, e, row, record { chain = chain; members = pending.members })

-- `insertBlock` puts a free block that is not listed at the front of the free list.
pub insert_block-IsListed :
    (h : Heap) (ls : List Block) (p n : ℕ) (rs : List Block) (xs : List ℕ)
    → IsRow h ls p (block n false ∷ rs)
    → IsPending h ls p n rs xs
    → IsRow (insert_block p h) ls p (block n false ∷ rs)
      × IsListed (insert_block p h) ls p (block n false ∷ rs) (p ∷ xs)
unfolding insert_block
insert_block-IsListed h ls p n rs xs row pending =
    let Place = Node (prologue h) ls p (block n false ∷ rs) in
    let above = Backward-le h.bytes (first h) p ls row.tiles.back in
    let least = row.tiles.front.0.least in
    let fresh : has p xs ≡ false =
      pending.members p
      ∙ ground (
        arith,
        free_backward-below h.bytes (first h) p p ls row.tiles.back (omega arith),
        free_forward-above h.bytes (p + n) h.brk.mem_brk p rs row.tiles.front.1
            (omega (least, arith)),
      ) in
    let start : Place h.free_listp =
      rw pending.chain.start
        (head_or-satisfies Place (prologue h) xs pending.chain.end_node pending.chain.nodes) in
    let here : Place p = inr (inr (inl refl)) in
    (
      Quiet-IsRow h ls p (block n false ∷ rs) row (insert_block p h).bytes p
          (insert_block-Quiet Place p h here start),
      record {
        chain =
            insert_block-IsFreeList (row-Places h ls p (block n false ∷ rs) row) (prologue h) h p xs
              here (ground (arith, above)) (All-ne_of_not_has p xs fresh) pending.chain;
        members = λ y.
            join_member (free_backward p ls y) (free_forward (p + n) rs y) y p xs
              (pending.members y);
      },
    )
