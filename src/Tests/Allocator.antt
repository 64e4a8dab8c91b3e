-- ===== src/Tests/Allocator.antt =====
-- The allocator on a small heap, and instances of the theorems about it.
use computer_systems_labs.Base.{
  ℕ, ◌+◌, ◌≤◌, ◌<◌, ◌≡◌, ◌⊎◌, inl, inr, refl, arith, true, Option, none, some, [], ◌∷◌, sign_bit,
}
use computer_systems_labs.Malloc.Bytes.{update, read, write, copy}
use computer_systems_labs.Malloc.Memlib.{Brk, mem_sbrk, mem_heapsize, max_heap}
use computer_systems_labs.Malloc.Memlib.Laws.{IsBrk}
use computer_systems_labs.Malloc.Heap.{Heap}
use computer_systems_labs.Malloc.Tags.{
  pack, put, get, get_size, get_alloc, align, max_int, ftrp, next_blkp, prev_blkp, next_free,
  prev_free, set_next_free, set_prev_free,
}
use computer_systems_labs.Malloc.Tags.Laws.{IsSize}
use computer_systems_labs.Malloc.FreeList.{insert_block, unlink_before, remove_block, find_fit_loop}
use computer_systems_labs.Malloc.FreeList.Links.{Places}
use computer_systems_labs.Malloc.FreeList.Operations.{
  IsFreeList, insert_block-IsFreeList, remove_block-IsFreeList,
}
use computer_systems_labs.Malloc.FreeList.Search.{first_fit, find_fit_loop-eq-first_fit}
use computer_systems_labs.Malloc.Alloc.{
  put_word, set_tags, prev_is_alloc, next_is_alloc, coalesce_next, coalesce_prev, coalesce_both,
  merge, coalesce, extend_size, extend_heap, find_fit, place, mm_free, write_prologue, mm_init,
  adjusted_size, malloc_extending, mm_malloc, shrink, move_block, mm_realloc,
}
use computer_systems_labs.Malloc.Alloc.Sizes.{adjusted_size_lem, adjusted_size-overflow}

abbrev small_brk : Brk
small_brk = record { mem_start_brk = 16; mem_brk = 16; mem_max_addr = 16 + max_heap }

abbrev blank : Heap
blank = record { bytes = λ _. 0; brk = small_brk; heap_listp = 0; free_listp = 0 }

-- Names what a run of the allocator has to see through.
run : ℕ → Option (ℕ × Heap)
unfolding update read write copy mem_sbrk mem_heapsize pack put get get_size get_alloc align max_int
    ftrp next_blkp prev_blkp next_free prev_free set_next_free set_prev_free insert_block
    unlink_before remove_block find_fit_loop put_word set_tags prev_is_alloc next_is_alloc
    coalesce_next coalesce_prev coalesce_both merge coalesce extend_size extend_heap find_fit place
    mm_free write_prologue mm_init adjusted_size malloc_extending mm_malloc shrink move_block
    mm_realloc
run size = mm_malloc size (mm_init blank).1

result : Option (ℕ × Heap) → ℕ
result none = 1
result (some (p, h)) = p

-- The first block of a fresh heap stands 48 bytes behind its start.
init_succeeds : (mm_init blank).0 ≡ true
unfolding run
init_succeeds = refl

first_block : result (run 16) ≡ 64
unfolding run result
first_block = refl

-- A list of free blocks at 64 and 96 that ends at the prologue at 24.
abbrev Site : ℕ → Type 0
Site y = (y ≡ 24) ⊎ (y ≡ 64) ⊎ (y ≡ 96)

abbrev empty_list : Heap
empty_list = record blank { free_listp = 24 }

abbrev one_block : Heap
one_block = insert_block 64 empty_list

abbrev two_blocks : Heap
two_blocks = insert_block 96 one_block

sites : Places Site
sites = record {
  spaced = λ x y p q. ground arith;
  not_null = λ x p. ground arith;
  fits = λ x p. ground arith;
}

empty-IsFreeList : IsFreeList Site 24 empty_list []
unfolding prev_free read
empty-IsFreeList = record {
  start = refl;
  links = refl;
  nodes = tt;
  end_node = inl refl;
  distinct = tt;
}

one-IsFreeList : IsFreeList Site 24 one_block (64 ∷ [])
one-IsFreeList =
    insert_block-IsFreeList sites 24 empty_list 64 [] (inr (inl refl)) (omega arith) tt
      empty-IsFreeList

insert_block-IsFreeList_example : IsFreeList Site 24 two_blocks (96 ∷ 64 ∷ [])
insert_block-IsFreeList_example =
    insert_block-IsFreeList sites 24 one_block 96 (64 ∷ []) (inr (inr refl)) (omega arith)
      (omega arith, tt) one-IsFreeList

remove_block-IsFreeList_example : IsFreeList Site 24 (remove_block 64 two_blocks) (96 ∷ [])
remove_block-IsFreeList_example = remove_block-IsFreeList sites 24 two_blocks (96 ∷ []) [] 64 (
    insert_block-IsFreeList sites 24 one_block 96 (64 ∷ []) (inr (inr refl)) (omega arith)
      (omega arith, tt) one-IsFreeList)

-- The same two blocks with headers: 32 bytes at 64, 48 at 96, and the prologue in use.
abbrev tagged : Heap
tagged = record two_blocks {
  bytes = put 92 (pack 48 0) (put 60 (pack 32 0) (put 20 (pack 24 1) two_blocks.bytes));
}

find_fit_example : find_fit_loop 3 40 96 tagged ≡ some (first_fit tagged.bytes 40 (96 ∷ 64 ∷ []))
unfolding run
find_fit_example =
    find_fit_loop-eq-first_fit 3 40 24 0 tagged (96 ∷ 64 ∷ []) (refl, refl, (refl, refl, refl))
      (refl, (refl, tt)) refl (omega arith)

adjusted_size_example :
    IsSize (adjusted_size 100)
    × (24 ≤ adjusted_size 100)
    × (100 + 8 ≤ adjusted_size 100)
    × (adjusted_size 100 ≤ 100 + 23)
    × (adjusted_size 100 < sign_bit)
adjusted_size_example = adjusted_size_lem 100 (omega arith) (omega arith)

adjusted_size-overflow_example : adjusted_size 0xffff_ffff ≡ 24
adjusted_size-overflow_example = adjusted_size-overflow 0xffff_ffff (omega arith) (omega arith)

small-IsBrk : IsBrk small_brk
small-IsBrk = record {
  above = omega arith;
  below = omega arith;
  room = refl;
  not_null = omega arith;
}

after : Option (ℕ × Heap) → Heap
after none = blank
after (some (p, h)) = h

ready : Heap
unfolding run
ready = (mm_init blank).1
