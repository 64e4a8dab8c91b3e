-- ===== src/Tests/Neighbours.antt =====
-- A heap of two blocks, before and after the first is freed, as a row of blocks.
use computer_systems_labs.Base.{
  ℕ, ◌+◌, ◌-◌, ◌≡◌, ◌≢◌, ◌⊎◌, inl, inr, refl, arith, true, false, Option, none, some, [], ◌∷◌,
}
use computer_systems_labs.Malloc.Bytes.{update, read, write, copy}
use computer_systems_labs.Malloc.Memlib.{mem_sbrk, mem_heapsize, max_heap}
use computer_systems_labs.Malloc.Heap.{Heap}
use computer_systems_labs.Malloc.Tags.{
  pack, put, get, get_size, get_alloc, align, max_int, ftrp, next_blkp, prev_blkp, next_free,
  prev_free, set_next_free, set_prev_free,
}
use computer_systems_labs.Malloc.FreeList.{insert_block, unlink_before, remove_block, find_fit_loop}
use computer_systems_labs.Malloc.Alloc.{
  put_word, set_tags, prev_is_alloc, next_is_alloc, coalesce_next, coalesce_prev, coalesce_both,
  merge, coalesce, extend_size, extend_heap, find_fit, place, mm_free, write_prologue, mm_init,
  adjusted_size, malloc_extending, mm_malloc,
}
use computer_systems_labs.Malloc.Blocks.{block}
use computer_systems_labs.Malloc.Invariant.{IsRow, IsListed}
use computer_systems_labs.Malloc.Invariant.Release.{Coalesced, mm_free-Coalesced}
use computer_systems_labs.Malloc.Invariant.Views.{IsViewed, view_next, view_prev}
use computer_systems_labs.Malloc.Invariant.Placed.{Placed, place-Placed}
use computer_systems_labs.Malloc.Invariant.Extended.{extend_heap-Coalesced}
use computer_systems_labs.Malloc.Invariant.Request.{Given, mm_malloc-Given}
use computer_systems_labs.Malloc.Invariant.Edges.{nearest_used, neighbours_lem}
use computer_systems_labs.Malloc.Runs.{
  IsFresh, IsZeroed, Reached, initialised, allocated, Invariant, Reached-Invariant,
}

abbrev blank_heap : Heap
blank_heap = record {
  bytes = λ _. 0;
  brk = record { mem_start_brk = 16; mem_brk = 16; mem_max_addr = 16 + max_heap };
  heap_listp = 0;
  free_listp = 0;
}

heap_of : Option (ℕ × Heap) → Heap
heap_of none = blank_heap
heap_of (some (p, h)) = h

-- Two requests of 16 bytes, and the first freed.
freed : Heap
unfolding update read write copy mem_sbrk mem_heapsize pack put get get_size get_alloc align max_int
    ftrp next_blkp prev_blkp next_free prev_free set_next_free set_prev_free insert_block
    unlink_before remove_block find_fit_loop put_word set_tags prev_is_alloc next_is_alloc
    coalesce_next coalesce_prev coalesce_both merge coalesce extend_size extend_heap find_fit place
    mm_free write_prologue mm_init adjusted_size malloc_extending mm_malloc heap_of
freed = mm_free 64 (heap_of (mm_malloc 16 (heap_of (mm_malloc 16 (mm_init blank_heap).1))))

freed-IsRow : IsRow freed (block 24 false ∷ []) 88 (block 24 true ∷ [])
unfolding freed
freed-IsRow = record {
  seat = record {
    brk_ok = record {
      above = omega arith;
      below = omega arith;
      room = refl;
      not_null = omega arith;
    };
    based = refl;
    aligned = refl;
    limit = omega arith;
  };
  edges = record { prologue_header = refl; guard = refl; epilogue_header = refl };
  tiles = record {
    back = (
      omega arith,
      record {
        sized = record { fits = omega arith; eights = refl };
        least = omega arith;
        header = refl;
        footer = refl;
      },
      refl,
    );
    front = (
      record {
        sized = record { fits = omega arith; eights = refl };
        least = omega arith;
        header = refl;
        footer = refl;
      },
      refl,
    );
  };
}

neighbours_example :
    (prev_is_alloc 88 freed.bytes ≡ nearest_used (block 24 false ∷ []))
    × (next_is_alloc 88 freed.bytes ≡ nearest_used [])
neighbours_example = neighbours_lem freed (block 24 false ∷ []) 88 (block 24 true) [] freed-IsRow

-- The heap before the first block is freed.
full : Heap
unfolding freed
full = heap_of (mm_malloc 16 (heap_of (mm_malloc 16 (mm_init blank_heap).1)))

full-IsRow : IsRow full (block 24 true ∷ []) 88 (block 24 true ∷ [])
unfolding full
full-IsRow = record {
  seat = record {
    brk_ok = record {
      above = omega arith;
      below = omega arith;
      room = refl;
      not_null = omega arith;
    };
    based = refl;
    aligned = refl;
    limit = omega arith;
  };
  edges = record { prologue_header = refl; guard = refl; epilogue_header = refl };
  tiles = record {
    back = (
      omega arith,
      record {
        sized = record { fits = omega arith; eights = refl };
        least = omega arith;
        header = refl;
        footer = refl;
      },
      refl,
    );
    front = (
      record {
        sized = record { fits = omega arith; eights = refl };
        least = omega arith;
        header = refl;
        footer = refl;
      },
      refl,
    );
  };
}

full-IsListed : IsListed full (block 24 true ∷ []) 88 (block 24 true ∷ []) []
unfolding full
full-IsListed = record {
  chain = record { start = refl; links = refl; nodes = tt; end_node = inl refl; distinct = tt };
  members = λ y. ground arith;
}

mm_free_example : Coalesced (mm_free 88 full) (block 24 true ∷ []) 88 24 []
mm_free_example = mm_free-Coalesced full (block 24 true ∷ []) 88 24 [] [] full-IsRow full-IsListed

freed-IsListed : IsListed freed (block 24 false ∷ []) 88 (block 24 true ∷ []) (64 ∷ [])
unfolding freed
freed-IsListed = record {
  chain = record {
    start = refl;
    links = (refl, refl, refl);
    nodes = (inr (inl (inl refl)), tt);
    end_node = inl refl;
    distinct = (omega arith, tt, tt);
  };
  members = λ y. ground arith;
}

-- The same heap from its first block and from its end.
from_first : IsViewed freed [] 64 (block 24 false ∷ block 24 true ∷ [])
from_first =
    view_prev freed [] 88 (block 24 false) (block 24 true ∷ [])
      (freed-IsRow, 64 ∷ [], freed-IsListed)

from_end : IsViewed freed (block 24 true ∷ block 24 false ∷ []) freed.brk.mem_brk []
unfolding freed
from_end =
    view_next freed (block 24 false ∷ []) 88 (block 24 true) []
      (freed-IsRow, 64 ∷ [], freed-IsListed)

place_example : Placed (place 64 24 freed) [] 64 24 24 (block 24 true ∷ [])
place_example =
    place-Placed freed [] 64 24 24 (block 24 true ∷ []) from_first.1 from_first.0 from_first.2
      (record { fits = omega arith; eights = refl }) (omega arith) (omega arith)

extend_heap_example :
    (extend_heap 4 freed ≡ (0, freed))
    ⊎ ((extend_heap 4 freed).0 ≡ freed.brk.mem_brk - 0)
      × Coalesced
          (extend_heap 4 freed).1
          (block 24 true ∷ block 24 false ∷ [])
          freed.brk.mem_brk
          (extend_size 4)
          []
extend_heap_example =
    extend_heap-Coalesced 4 freed (block 24 true ∷ block 24 false ∷ []) from_end.1 from_end.0
      from_end.2 (omega arith)

mm_malloc_example :
    (mm_malloc 16 freed ≡ some (0, freed))
    ⊎ (bp : ℕ) × (g : Heap) × (mm_malloc 16 freed ≡ some (bp, g)) × (bp ≢ 0) × Given g bp 24
mm_malloc_example =
    mm_malloc-Given 16 freed (block 24 true ∷ block 24 false ∷ []) (omega arith) (omega arith)
      from_end

-- How the heap of two blocks in use is reached.
blank_heap-IsFresh : IsFresh blank_heap
blank_heap-IsFresh = record {
  brk_ok = record { above = omega arith; below = omega arith; room = refl; not_null = omega arith };
  empty = refl;
  aligned = refl;
  limit = omega arith;
}

blank_heap-IsZeroed : IsZeroed blank_heap
unfolding get read
blank_heap-IsZeroed = refl

reached_full : Reached blank_heap full
unfolding full
reached_full =
    allocated (heap_of (mm_malloc 16 (mm_init blank_heap).1)) 16 88 full
      (allocated (mm_init blank_heap).1 16 64 (heap_of (mm_malloc 16 (mm_init blank_heap).1))
        (initialised (mm_init blank_heap).1 refl) (omega arith) (omega arith) refl)
      (omega arith) (omega arith) refl

Reached-Invariant_example : Invariant (mm_free 88 full)
Reached-Invariant_example =
    Reached-Invariant blank_heap (mm_free 88 full) blank_heap-IsFresh blank_heap-IsZeroed
      (Reached.freed full (block 24 true ∷ []) 88 24 [] reached_full full-IsRow.tiles)
