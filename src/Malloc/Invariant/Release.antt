-- ===== src/Malloc/Invariant/Release.antt =====
-- `coalesce` and `mm_free` of mm.c on every block, whatever its neighbours are.
use mathlib.Core.Path.{subst}
use computer_systems_labs.Base.{
  ℕ, ◌+◌, ◌-◌, ◌≡◌, ◌⊎◌, inl, inr, refl, sym, ap, ◌∙◌, arith, true, false, not, Bool-cases, ◌==◌,
  ◌&&◌, List, [], ◌∷◌, if◌then◌else◌,
}
use computer_systems_labs.Malloc.Heap.{Heap}
use computer_systems_labs.Malloc.Alloc.{
  coalesce_next, coalesce_prev, coalesce_both, merge, coalesce, mm_free,
}
use computer_systems_labs.Malloc.Blocks.{Block, block}
use computer_systems_labs.Malloc.Blocks.Places.{Backward-le}
use computer_systems_labs.Malloc.Invariant.{IsRow, IsListed, first}
use computer_systems_labs.Malloc.Invariant.Edges.{nearest_used, neighbours_lem, here-size}
use computer_systems_labs.Malloc.Invariant.Hole.{
  IsHole, IsPending, set_tags-IsPending, insert_block-IsListed,
}
use computer_systems_labs.Malloc.Invariant.Merge.{free_size, beyond}
use computer_systems_labs.Malloc.Invariant.Cases.{
  Merged, coalesce_next-Merged, coalesce_prev-Merged, coalesce_both-Merged,
}

-- The nearest block is in use, or it is free and comes off.
nearest :
    (bs : List Block)
    → ((nearest_used bs ≡ true) × (free_size bs ≡ 0) × (beyond bs ≡ bs))
      ⊎ ((k : ℕ) × (cs : List Block) × (bs ≡ block k false ∷ cs))
nearest [] = inl (refl, refl, refl)
nearest (b ∷ bs) = elim (Bool-cases b.used) [
  | inl used ↦ inl (used, rw (used) refl, rw (used) refl)
  | inr free ↦ inr (b.size, bs, ap (λ u. block b.size u ∷ bs) free)
]

Merged-same :
    (r r' : ℕ × Heap) (ls ls' : List Block) (q q' n n' : ℕ) (rs rs' : List Block)
    → r' ≡ r
    → ls' ≡ ls
    → q' ≡ q
    → n' ≡ n
    → rs' ≡ rs
    → Merged r ls q n rs
    → Merged r' ls' q' n' rs'
Merged-same r r' ls ls' q q' n n' rs rs' er el eq en es merged =
    rw (el, eq, en, es) (merged.0, merged.1, er ∙ merged.2, merged.3, merged.4)

-- Which case is taken.
pub merge_by_neighbours :
    (h : Heap) (ls : List Block) (p : ℕ) (b : Block) (rs : List Block)
    → IsRow h ls p (b ∷ rs)
    → merge p h ≡ (
        if nearest_used ls && not (nearest_used rs)
        then coalesce_next p h
        else if not (nearest_used ls) && nearest_used rs
        then coalesce_prev p h
        else if not (nearest_used ls) && not (nearest_used rs)
        then coalesce_both p h
        else (p, h))
unfolding merge
merge_by_neighbours h ls p b rs row =
    let tests = neighbours_lem h ls p b rs row in rw (tests.0, tests.1) refl

abbrev MergedAll : Heap → List Block → ℕ → ℕ → List Block → Type 0
MergedAll h ls p n rs =
    Merged (merge p h) (beyond ls) (p - free_size ls) (n + (free_size ls + free_size rs))
      (beyond rs)

abbrev Merges : Heap → List Block → ℕ → ℕ → List Block → List ℕ → Type 0
Merges h ls p n rs xs =
    IsRow h ls p (block n false ∷ rs) → IsPending h ls p n rs xs → MergedAll h ls p n rs

Merges-none :
    (h : Heap) (ls : List Block) (p n : ℕ) (rs : List Block) (xs : List ℕ)
    → (nearest_used ls ≡ true) × (free_size ls ≡ 0) × (beyond ls ≡ ls)
    → (nearest_used rs ≡ true) × (free_size rs ≡ 0) × (beyond rs ≡ rs)
    → Merges h ls p n rs xs
Merges-none h ls p n rs xs (left, lz, lb) (right, rz, rb) row pending =
    let taken = merge_by_neighbours h ls p (block n false) rs row in
    Merged-same (p, h) (merge p h) ls (beyond ls) p (p - free_size ls) n
      (n + (free_size ls + free_size rs)) rs (beyond rs) (taken ∙ rw (left, right) refl) lb
      (omega (lz, arith)) (omega (lz, rz, arith)) rb (h, xs, refl, row, pending)

Merges-next :
    (h : Heap) (ls : List Block) (p n k : ℕ) (rs : List Block) (xs : List ℕ)
    → (nearest_used ls ≡ true) × (free_size ls ≡ 0) × (beyond ls ≡ ls)
    → Merges h ls p n (block k false ∷ rs) xs
Merges-next h ls p n k rs xs (left, lz, lb) row pending =
    let taken = merge_by_neighbours h ls p (block n false) (block k false ∷ rs) row in
    Merged-same (coalesce_next p h) (merge p h) ls (beyond ls) p (p - free_size ls) (n + k)
      (n + (free_size ls + k)) rs rs (taken ∙ rw (left) refl) lb (omega (lz, arith))
      (omega (lz, arith)) refl (coalesce_next-Merged h ls p n k rs xs row pending)

Merges-prev :
    (h : Heap) (ls : List Block) (p n k : ℕ) (rs : List Block) (xs : List ℕ)
    → (nearest_used rs ≡ true) × (free_size rs ≡ 0) × (beyond rs ≡ rs)
    → Merges h (block k false ∷ ls) p n rs xs
Merges-prev h ls p n k rs xs (right, rz, rb) row pending =
    let taken = merge_by_neighbours h (block k false ∷ ls) p (block n false) rs row in
    Merged-same (coalesce_prev p h) (merge p h) ls ls (p - k) (p - k) (n + k)
      (n + (k + free_size rs)) rs (beyond rs) (taken ∙ rw (right) refl) refl refl
      (omega (rz, arith)) rb (coalesce_prev-Merged h ls p n k rs xs row pending)

Merges-both :
    (h : Heap) (ls : List Block) (p n k j : ℕ) (rs : List Block) (xs : List ℕ)
    → Merges h (block k false ∷ ls) p n (block j false ∷ rs) xs
Merges-both h ls p n k j rs xs row pending =
    let taken =
      merge_by_neighbours h (block k false ∷ ls) p (block n false) (block j false ∷ rs) row in
    Merged-same (coalesce_both p h) (merge p h) ls ls (p - k) (p - k) (n + (k + j)) (n + (k + j)) rs
      rs taken refl refl refl refl (coalesce_both-Merged h ls p n k j rs xs row pending)

merge-Merged :
    (h : Heap) (ls : List Block) (p n : ℕ) (rs : List Block) (xs : List ℕ) → Merges h ls p n rs xs
merge-Merged h ls p n rs xs = elim (nearest ls) [
  | inl left ↦ elim (nearest rs) [
    | inl right ↦ Merges-none h ls p n rs xs left right
    | inr (k, cs, e) ↦ subst (λ r. Merges h ls p n r xs) (sym e) (Merges-next h ls p n k cs xs left)
  ]
  | inr (j, ds, d) ↦
      subst (λ l. Merges h l p n rs xs) (sym d)
        (elim (nearest rs) [
          | inl right ↦ Merges-prev h ds p n j rs xs right
          | inr (k, cs, e) ↦
              subst (λ r. Merges h (block j false ∷ ds) p n r xs) (sym e)
                (Merges-both h ds p n j k cs xs)
        ])
]

-- What `coalesce` leaves: one free block for the block at `p` and its free neighbours, first on the
-- free list.
abbrev pub Coalesced : Heap → List Block → ℕ → ℕ → List Block → Type 0
Coalesced g ls p n rs =
    let q = p - free_size ls in
    let size = n + (free_size ls + free_size rs) in
    IsRow g (beyond ls) q (block size false ∷ beyond rs)
    × (ys : List ℕ) × IsListed g (beyond ls) q (block size false ∷ beyond rs) (q ∷ ys)

-- From a heap whose free block at `p` is not on the free list, which holds the other free blocks,
-- `coalesce` returns the address of one free block in the place of that block and of its neighbours
-- that are free; the blocks fill the heap, and the free list holds the free blocks and no others.
pub coalesce-Coalesced :
    (h : Heap) (ls : List Block) (p n : ℕ) (rs : List Block) (xs : List ℕ)
    → IsRow h ls p (block n false ∷ rs)
    → IsPending h ls p n rs xs
    → ((coalesce p h).0 ≡ p - free_size ls) × Coalesced (coalesce p h).1 ls p n rs
unfolding coalesce
coalesce-Coalesced h ls p n rs xs row pending =
    let q = p - free_size ls in
    let size = n + (free_size ls + free_size rs) in
    let (g, ys, merged, row1, pending1) = merge-Merged h ls p n rs xs row pending in
    let (row2, listed) = insert_block-IsListed g (beyond ls) q size (beyond rs) ys row1 pending1 in
    rw (merged) (refl, (row2, ys, listed))

-- The tags of a free block on a block in use: it is not listed yet.
pub release-IsRow :
    (h : Heap) (ls : List Block) (p n : ℕ) (rs : List Block) (xs : List ℕ)
    → IsRow h ls p (block n true ∷ rs)
    → IsListed h ls p (block n true ∷ rs) xs
    → (g : Heap) × (mm_free p h ≡ (coalesce p g).1)
      × IsRow g ls p (block n false ∷ rs)
      × IsPending g ls p n rs xs
unfolding mm_free
release-IsRow h ls p n rs xs row listed =
    let above = Backward-le h.bytes (first h) p ls row.tiles.back in
    let not_null : (p == 0) ≡ false = ground (arith, above) in
    let pending : IsPending h ls p n rs xs = record {
      chain = listed.chain;
      members = λ y. ground (arith, listed.members y);
    } in
    let hole : IsHole h ls p n rs = record {
      seat = row.seat;
      edges = row.edges;
      back = row.tiles.back;
      front = row.tiles.front.1;
      sized = row.tiles.front.0.sized;
      least = row.tiles.front.0.least;
    } in
    let (g, tags, row1, pending1) = set_tags-IsPending h ls p n rs hole xs pending in
    (g, rw (not_null, here-size h ls p n true rs row, tags) refl, row1, pending1)

-- Freeing a block in use in a heap that blocks with equal tags fill from edge to edge, and whose free
-- list holds the free blocks and no others, keeps both: the block and those of its neighbours that are
-- free become one free block, which is first on the list, and all other blocks are as they were.
pub mm_free-Coalesced :
    (h : Heap) (ls : List Block) (p n : ℕ) (rs : List Block) (xs : List ℕ)
    → IsRow h ls p (block n true ∷ rs)
    → IsListed h ls p (block n true ∷ rs) xs
    → Coalesced (mm_free p h) ls p n rs
mm_free-Coalesced h ls p n rs xs row listed =
    let (g, freed, row1, pending1) = release-IsRow h ls p n rs xs row listed in
    rw (freed) (coalesce-Coalesced g ls p n rs xs row1 pending1).1
