-- ===== src/Malloc/Invariant/Place.antt =====
-- `place` of mm.c: a free block is taken whole, or it is cut in two.
use mathlib.Core.Path.{subst}
use computer_systems_labs.Base.{
  ℕ, ◌+◌, ◌-◌, ◌≤◌, ◌≡◌, inl, inr, refl, sym, ap, ◌∙◌, arith, true, false, not, Bool-cases, ◌==◌,
  ◌&&◌, ◌||◌, List, ◌∷◌, ◌++◌,
}
use computer_systems_labs.Malloc.Heap.{Heap}
use computer_systems_labs.Malloc.Tags.{get_size, next_blkp}
use computer_systems_labs.Malloc.Tags.Laws.{IsSize}
use computer_systems_labs.Malloc.FreeList.{remove_block}
use computer_systems_labs.Malloc.FreeList.Operations.{IsFreeList, remove_block-IsFreeList}
use computer_systems_labs.Malloc.Alloc.{set_tags, coalesce}
use computer_systems_labs.Malloc.Blocks.{
  Block, block, Node, AtForward, AtBackward, free_forward, free_backward,
}
use computer_systems_labs.Malloc.Blocks.Links.{remove_block-Quiet, has, split_at, has-remove}
use computer_systems_labs.Malloc.Invariant.{IsRow, IsListed, first, prologue}
use computer_systems_labs.Malloc.Invariant.Members.{free_backward-below, free_forward-above}
use computer_systems_labs.Malloc.Invariant.Edges.{tag_read}
use computer_systems_labs.Malloc.Invariant.Links.{row-Places, remove_block_form, remove_block-IsRow}
use computer_systems_labs.Malloc.Invariant.Hole.{
  IsHole, IsPending, set_tags-IsRow, set_tags-IsPending,
}
use computer_systems_labs.Malloc.Invariant.Merge.{IsPending-over}
use computer_systems_labs.Malloc.Invariant.Release.{Coalesced, coalesce-Coalesced}
use computer_systems_labs.Malloc.Invariant.Cut.{Quiet-IsHole, set_tags-IsHole}

module _ (h : Heap) (ls : List Block) (p c : ℕ) (rs : List Block) (xs : List ℕ)
    (row : IsRow h ls p (block c false ∷ rs))
    (listed : IsListed h ls p (block c false ∷ rs) xs) where
  at_front : has p xs ≡ true
  at_front = ground (arith, listed.members p)

  -- Without the block at `p`.
  without :
      (ys : List ℕ)
      → ((y : ℕ) → has y ys ≡ (not (y == p) && has y xs))
      → (y : ℕ) → has y ys ≡ (free_backward p ls y || free_forward (p + c) rs y)
  without ys members y =
      let least = row.tiles.front.0.least in
      let low = free_backward-below h.bytes (first h) p p ls row.tiles.back (omega arith) in
      let high =
        free_forward-above h.bytes (p + c) h.brk.mem_brk p rs row.tiles.front.1
          (omega (least, arith)) in
      elim (Bool-cases (y == p)) [
        | inl same ↦
            let here : y ≡ p = ground (arith, same) in
            rw (here) (ground (arith, members p, low, high))
        | inr other ↦ ground (arith, members y, listed.members y, other)
      ]

  -- The whole block is taken.
  pub whole-IsListed :
      (g : Heap) × (ys : List ℕ) × (remove_block p (set_tags p c 1 h) ≡ g)
      × IsRow g ls p (block c true ∷ rs)
      × IsListed g ls p (block c true ∷ rs) ys
  whole-IsListed =
      let hole : IsHole h ls p c rs = record {
        seat = row.seat;
        edges = row.edges;
        back = row.tiles.back;
        front = row.tiles.front.1;
        sized = row.tiles.front.0.sized;
        least = row.tiles.front.0.least;
      } in
      let (m, e, row1, chain1) = set_tags-IsRow h ls p c rs hole true xs listed.chain in
      let (m2, f, ys, e2, row2, chain2, members2) =
        remove_block-IsRow (record h { bytes = m }) ls p (block c true ∷ rs) p xs row1 chain1
          at_front in
      (
        record h { bytes = m2; free_listp = f },
        ys,
        rw (e) e2,
        row2,
        record { chain = chain2; members = λ y. ground (arith, without ys members2 y) },
      )

module _ (h : Heap) (ls : List Block) (p a n : ℕ) (rs : List Block) (xs : List ℕ)
    (row : IsRow h ls p (block (a + n) false ∷ rs))
    (listed : IsListed h ls p (block (a + n) false ∷ rs) xs) (sized : IsSize a) (least : 24 ≤ a)
    (rest : 24 ≤ n) where
  same_end : p + a - a ≡ p
  same_end = omega arith

  -- The nodes of the row are nodes of the row that is cut.
  widen :
      (y : ℕ)
      → Node (prologue h) ls p (block (a + n) false ∷ rs) y
      → Node (prologue h) (block a true ∷ ls) (p + a) (block n false ∷ rs) y
  widen y (inl at) = inl at
  widen y (inr (inl at)) = inr (inl (inr (subst (λ q. AtBackward q ls y) (sym same_end) at)))
  widen y (inr (inr (inl at))) = inr (inl (inl (omega (at, arith))))
  widen y (inr (inr (inr at))) =
      let there : p + (a + n) ≡ p + a + n = omega arith in
      inr (inr (inr (subst (λ q. AtForward q rs y) there at)))

  -- The front is taken off the list, and the hole behind it is left.
  cut-IsPending :
      (g : Heap) × (ys : List ℕ) × (remove_block p (set_tags p a 1 h) ≡ g)
      × IsHole g (block a true ∷ ls) (p + a) n rs
      × IsPending g (block a true ∷ ls) (p + a) n rs ys
  cut-IsPending =
      let Place = Node (prologue h) ls p (block (a + n) false ∷ rs) in
      let places = row-Places h ls p (block (a + n) false ∷ rs) row in
      let (m, e, hole1, chain1) =
        set_tags-IsHole h ls p a n rs row sized least rest xs listed.chain in
      let g1 = record h { bytes = m } in
      let (before, after, cut) = split_at p xs (at_front h ls p (a + n) rs xs row listed) in
      let cut_chain : IsFreeList Place (prologue h) g1 (before ++ p ∷ after) =
        subst (λ l. IsFreeList Place (prologue h) g1 l) cut chain1 in
      let quiet = remove_block-Quiet Place places (prologue h) g1 before after p cut_chain in
      let m2 = (remove_block p g1).bytes in
      let f = (remove_block p g1).free_listp in
      let g2 = record g1 { bytes = m2; free_listp = f } in
      let removed : IsFreeList Place (prologue h) g2 (before ++ after) =
        subst (λ g. IsFreeList Place (prologue h) g (before ++ after)) (remove_block_form p g1)
          (remove_block-IsFreeList places (prologue h) g1 before after p cut_chain) in
      let members : (y : ℕ) → has y (before ++ after) ≡ (not (y == p) && has y xs) = λ y.
        subst (λ l. has y (before ++ after) ≡ (not (y == p) && has y l)) (sym cut)
          (has-remove (prologue h) p y before after cut_chain.distinct) in
      let others = without h ls p (a + n) rs xs row listed (before ++ after) members in
      let there : p + (a + n) ≡ p + a + n = omega arith in
      let wide : (y : ℕ)
          → has y (before ++ after)
            ≡ (free_backward (p + a) (block a true ∷ ls) y || free_forward (p + a + n) rs y) =
        λ y. rw (same_end) (
          subst
            (λ q.
              has y (before ++ after)
              ≡ (((y == p && false) || free_backward p ls y) || free_forward q rs y))
            there (ground (arith, others y))) in
      (
        g2,
        before ++ after,
        rw (e) (remove_block_form p g1),
        Quiet-IsHole g1 (block a true ∷ ls) (p + a) n rs hole1 m2 f
            (λ b out. quiet b (λ y at. out y (widen y at))),
        IsPending-over g2 (block a true ∷ ls) ls (p + a) n p (a + n) rs rs (before ++ after) removed
            wide,
      )

  -- The front of the block is taken, and the rest becomes a free block.
  pub cut-Coalesced :
      (g : Heap) × ((let h1 = remove_block p (set_tags p a 1 h) in
          let q = next_blkp p h1.bytes in (coalesce q (set_tags q n 0 h1)).1)
        ≡ g)
      × Coalesced g (block a true ∷ ls) (p + a) n rs
  unfolding next_blkp
  cut-Coalesced =
      let (g, ys, e, hole, pending) = cut-IsPending in
      let (g3, tags, row3, pending3) =
        set_tags-IsPending g (block a true ∷ ls) (p + a) n rs hole ys pending in
      let front = hole.back.1 in
      let size = (tag_read (p + a - a - 4) a true g.bytes front.sized front.header).0 in
      let size_at = ap (λ q. get_size (q - 4) g.bytes) (sym same_end) ∙ size in
      (
        (coalesce (p + a) g3).1,
        rw (e, size_at, tags) refl,
        (coalesce-Coalesced g3 (block a true ∷ ls) (p + a) n rs ys row3 pending3).1,
      )
