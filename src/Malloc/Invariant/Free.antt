-- ===== src/Malloc/Invariant/Free.antt =====
-- `mm_free` of a block whose neighbours are in use, which is not merged with them.
use computer_systems_labs.Base.{ℕ, ◌≡◌, refl, true, false, List, ◌∷◌}
use computer_systems_labs.Malloc.Heap.{Heap}
use computer_systems_labs.Malloc.FreeList.{insert_block}
use computer_systems_labs.Malloc.Alloc.{coalesce, mm_free}
use computer_systems_labs.Malloc.Blocks.{Block, block}
use computer_systems_labs.Malloc.Invariant.{IsRow, IsListed}
use computer_systems_labs.Malloc.Invariant.Edges.{nearest_used}
use computer_systems_labs.Malloc.Invariant.Hole.{insert_block-IsListed}
use computer_systems_labs.Malloc.Invariant.Release.{merge_by_neighbours, release-IsRow}

coalesce_unmerged :
    (h : Heap) (ls : List Block) (p : ℕ) (b : Block) (rs : List Block)
    → IsRow h ls p (b ∷ rs)
    → nearest_used ls ≡ true
    → nearest_used rs ≡ true
    → coalesce p h ≡ (p, insert_block p h)
unfolding coalesce
coalesce_unmerged h ls p b rs row left right =
    rw (merge_by_neighbours h ls p b rs row, left, right) refl

-- Freeing a block in use between two blocks in use, or edges of the heap, leaves the heap a row of
-- blocks from edge to edge in which that block is free and the others are as they were, and a free
-- list that holds that block first and then what it held, and so the free blocks and no others.
pub mm_free_lem :
    (h : Heap) (ls : List Block) (p n : ℕ) (rs : List Block) (xs : List ℕ)
    → IsRow h ls p (block n true ∷ rs)
    → IsListed h ls p (block n true ∷ rs) xs
    → nearest_used ls ≡ true
    → nearest_used rs ≡ true
    → IsRow (mm_free p h) ls p (block n false ∷ rs)
      × IsListed (mm_free p h) ls p (block n false ∷ rs) (p ∷ xs)
mm_free_lem h ls p n rs xs row listed left right =
    let (g, freed, row1, pending1) = release-IsRow h ls p n rs xs row listed in
    rw (freed, coalesce_unmerged g ls p (block n false) rs row1 left right)
      (insert_block-IsListed g ls p n rs xs row1 pending1)
