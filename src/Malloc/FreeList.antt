-- ===== src/Malloc/FreeList.antt =====
-- `insertBlock`, `removeBlock` and `find_fit` of mm.c: the doubly linked list of free blocks. It
-- ends at the prologue, which is marked allocated.
pub mod Links
pub mod Splice
pub mod Operations
pub mod Search
use computer_systems_labs.Base.{ℕ, zero, suc, ◌+◌, Option, none, some, leb, ◌==◌, if◌then◌else◌}
use computer_systems_labs.Malloc.Heap.{Heap}
use computer_systems_labs.Malloc.Tags.{
  hdrp, get_size, get_alloc, next_free, prev_free, set_next_free, set_prev_free,
}

unfoldable pub insert_block : ℕ → Heap → Heap
insert_block bp h =
    let m1 = set_next_free bp h.free_listp h.bytes in
    let m2 = set_prev_free h.free_listp bp m1 in
    let m3 = set_prev_free bp 0 m2 in record h { bytes = m3; free_listp = bp }

-- The first step of `removeBlock`: what stands before the block is made to point behind it.
unfoldable pub unlink_before : ℕ → Heap → Heap
unlink_before bp h =
    if prev_free bp h.bytes == 0
    then record h { free_listp = next_free bp h.bytes }
    else record h { bytes = set_next_free (prev_free bp h.bytes) (next_free bp h.bytes) h.bytes }

unfoldable pub remove_block : ℕ → Heap → Heap
remove_block bp h =
    let h1 = unlink_before bp h in
    record h1 { bytes = set_prev_free (next_free bp h1.bytes) (prev_free bp h1.bytes) h1.bytes }

-- The search from `bp` on. `some 0` is the result NULL, and `none` means that the fuel ran out.
unfoldable pub find_fit_loop : ℕ → ℕ → ℕ → Heap → Option ℕ
find_fit_loop zero asize bp h = none
find_fit_loop (suc fuel) asize bp h =
    let rest = find_fit_loop fuel asize (next_free bp h.bytes) h in
    if get_alloc (hdrp bp) h.bytes == 0
    then (if leb asize (get_size (hdrp bp) h.bytes) then some bp else rest)
    else some 0
