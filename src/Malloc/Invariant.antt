-- ===== src/Malloc/Invariant.antt =====
-- The invariant of the allocator of mm.c, on a heap that is seen from the block boundary `p`.
pub mod Edges
pub mod Members
pub mod Free
pub mod Links
pub mod Hole
pub mod Merge
pub mod Cases
pub mod Release
pub mod Cut
pub mod Place
pub mod Placed
pub mod Extend
pub mod Extended
pub mod Views
pub mod Found
pub mod Request
pub mod Words
pub mod Init
pub mod Walk
pub mod Payload
use computer_systems_labs.Base.{ℕ, ◌+◌, ◌-◌, ◌%◌, ◌^◌, ◌≤◌, ◌<◌, ◌≡◌, Bool, ◌||◌, List}
use computer_systems_labs.Malloc.Bytes.{Bytes}
use computer_systems_labs.Malloc.Memlib.{Brk, max_heap}
use computer_systems_labs.Malloc.Memlib.Laws.{IsBrk}
use computer_systems_labs.Malloc.Heap.{Heap}
use computer_systems_labs.Malloc.Tags.{get}
use computer_systems_labs.Malloc.FreeList.Operations.{IsFreeList}
use computer_systems_labs.Malloc.Blocks.{Block, Tiles, Node, free_forward, free_backward}
use computer_systems_labs.Malloc.Blocks.Links.{has}

-- The payload of the prologue, at which the free list ends, and of the first block.
abbrev pub prologue : Heap → ℕ
prologue h = h.heap_listp + 8

abbrev pub first : Heap → ℕ
first h = h.heap_listp + 48

-- The words at the two edges: the header of the prologue, the word before the header of the first
-- block, which `coalesce` reads as a footer, and the header of the epilogue.
pub record IsEdged (m : Bytes) (base e : ℕ) : Type 0 where
  pub prologue_header : get (base + 4) m ≡ 25
  pub guard : get (base + 40) m ≡ 0
  pub epilogue_header : get (e - 4) m ≡ 1

-- Where the heap lies in the storage of memlib.c, below 2 ^ 63.
pub record IsSeated (h : Heap) : Type 0 where
  pub brk_ok : IsBrk h.brk
  pub based : h.heap_listp ≡ h.brk.mem_start_brk
  pub aligned : h.heap_listp % 8 ≡ 0
  pub limit : h.brk.mem_max_addr < 2 ^ 63

-- The blocks fill the heap between its edges.
pub record IsRow (h : Heap) (ls : List Block) (p : ℕ) (rs : List Block) : Type 0 where
  pub seat : IsSeated h
  pub edges : IsEdged h.bytes h.heap_listp h.brk.mem_brk
  pub tiles : Tiles h.bytes (first h) h.brk.mem_brk ls p rs

-- The free list has the blocks that are not in use in `ls` and `rs`, and no others.
pub record IsListed (h : Heap) (ls : List Block) (p : ℕ) (rs : List Block) (xs : List ℕ)
    : Type 0 where
  pub chain : IsFreeList (Node (prologue h) ls p rs) (prologue h) h xs
  pub members : (y : ℕ) → has y xs ≡ (free_backward p ls y || free_forward p rs y)
