-- ===== src/Malloc/Alloc/Growth.antt =====
-- The break under the operations of mm.c: only `extend_heap` moves it, and never down.
use computer_systems_labs.Base.{ℕ, ◌/◌, ◌≤◌, ◌≡◌, refl, arith, some, Option-cases, inl, inr}
use computer_systems_labs.Malloc.Memlib.{Brk, mem_sbrk}
use computer_systems_labs.Malloc.Heap.{Heap}
use computer_systems_labs.Malloc.Tags.{wsize, chunksize, max_int}
use computer_systems_labs.Malloc.FreeList.{insert_block, unlink_before, remove_block}
use computer_systems_labs.Malloc.Alloc.{
  put_word, set_tags, coalesce_next, coalesce_prev, coalesce_both, merge, coalesce, extend_heap,
  place, write_prologue, mm_free, malloc_extending, mm_malloc, shrink, move_block, mm_realloc,
  mm_init, adjusted_size,
}

-- The storage is the same and the break has not moved down.
pub record Grows (b b' : Brk) : Type 0 where
  pub same_start : b'.mem_start_brk ≡ b.mem_start_brk
  pub same_max : b'.mem_max_addr ≡ b.mem_max_addr
  pub grown : b.mem_brk ≤ b'.mem_brk

remove_block-brk : (bp : ℕ) (h : Heap) → (remove_block bp h).brk ≡ h.brk
unfolding remove_block unlink_before
remove_block-brk bp h = ground arith

set_tags-brk : (bp size alloc : ℕ) (h : Heap) → (set_tags bp size alloc h).brk ≡ h.brk
unfolding set_tags put_word
set_tags-brk bp size alloc h = refl

merge-brk : (bp : ℕ) (h : Heap) → (merge bp h).1.brk ≡ h.brk
unfolding merge coalesce_next coalesce_prev coalesce_both
merge-brk bp h = grind (arith, set_tags-brk, remove_block-brk)

coalesce-brk : (bp : ℕ) (h : Heap) → (coalesce bp h).1.brk ≡ h.brk
unfolding coalesce insert_block
coalesce-brk bp h = merge-brk bp h

pub mm_free-brk : (bp : ℕ) (h : Heap) → (mm_free bp h).brk ≡ h.brk
unfolding mm_free
mm_free-brk bp h = grind (arith, set_tags-brk, coalesce-brk)

place-brk : (bp asize : ℕ) (h : Heap) → (place bp asize h).brk ≡ h.brk
unfolding place
place-brk bp asize h = grind (arith, set_tags-brk, coalesce-brk, remove_block-brk)

extend_heap-Grows : (words : ℕ) (h : Heap) → Grows h.brk (extend_heap words h).1.brk
unfolding extend_heap mem_sbrk put_word
extend_heap-Grows words h = grind (arith, set_tags-brk, coalesce-brk)

malloc_extending-Grows : (asize : ℕ) (h : Heap) → Grows h.brk (malloc_extending asize h).1.brk
unfolding malloc_extending
malloc_extending-Grows asize h =
    grind (arith, place-brk, extend_heap-Grows (max_int asize chunksize / wsize) h)

-- Whenever `mm_malloc` returns, the storage of the heap is the same and its break is where it was
-- or above.
pub mm_malloc-Grows :
    (size p : ℕ) (h h' : Heap) → mm_malloc size h ≡ some (p, h') → Grows h.brk h'.brk
unfolding mm_malloc
mm_malloc-Grows size p h h' e =
    grind (arith, place-brk, malloc_extending-Grows (adjusted_size size) h)

shrink-brk : (ptr oldsize asize : ℕ) (h : Heap) → (shrink ptr oldsize asize h).brk ≡ h.brk
unfolding shrink put_word
shrink-brk ptr oldsize asize h = grind (arith, set_tags-brk, mm_free-brk)

move_block-brk :
    (ptr newptr size oldsize : ℕ) (h : Heap) → (move_block ptr newptr size oldsize h).brk ≡ h.brk
unfolding move_block
move_block-brk ptr newptr size oldsize h = grind (arith, mm_free-brk)

-- Whenever `mm_realloc` returns, the storage of the heap is the same and its break is where it
-- was or above.
pub mm_realloc-Grows :
    (ptr size p : ℕ) (h h' : Heap) → mm_realloc ptr size h ≡ some (p, h') → Grows h.brk h'.brk
unfolding mm_realloc
mm_realloc-Grows ptr size p h h' e = elim (Option-cases (mm_malloc size h)) [
  | inl stuck ↦ grind (arith, stuck, shrink-brk, mm_free-brk)
  | inr ((q, g), found) ↦
      grind
        (arith, found, shrink-brk, mm_free-brk, move_block-brk, mm_malloc-Grows size q h g found)
]

write_prologue-brk : (base : ℕ) (h : Heap) → (write_prologue base h).brk ≡ h.brk
unfolding write_prologue put_word
write_prologue-brk base h = refl

pub mm_init-Grows : (h : Heap) → Grows h.brk (mm_init h).1.brk
unfolding mm_init mem_sbrk
mm_init-Grows h = grind (arith, write_prologue-brk, extend_heap-Grows)
