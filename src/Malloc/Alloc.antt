-- ===== src/Malloc/Alloc.antt =====
-- The functions of mm.c that change the heap. A result of `none` means that the search of the
-- free list did not end within its fuel, which is more than the number of blocks that fit the heap.
pub mod Sizes
pub mod Growth
use computer_systems_labs.Base.{
  ℕ, ◌+◌, ◌-◌, ◌*◌, ◌/◌, ◌%◌, ◌^◌, Bool, true, false, ◌&&◌, ◌||◌, not, Option, none, some, ltb, leb,
  ◌==◌, if◌then◌else◌, add32, word_mod,
}
use computer_systems_labs.Malloc.Bytes.{Bytes, copy}
use computer_systems_labs.Malloc.Memlib.{Brk, mem_sbrk, mem_heapsize}
use computer_systems_labs.Malloc.Heap.{Heap}
use computer_systems_labs.Malloc.Tags.{
  wsize, dsize, chunksize, minimum, align, max_int, pack, put, get_size, get_alloc, hdrp, ftrp,
  next_blkp, prev_blkp,
}
use computer_systems_labs.Malloc.FreeList.{insert_block, remove_block, find_fit_loop}

-- `PUT(p, val)`
unfoldable pub put_word : ℕ → ℕ → Heap → Heap
put_word p val h = record h { bytes = put p val h.bytes }

-- The pair of stores that gives the block at `bp` its header, and then the footer that the new
-- header places.
unfoldable pub set_tags : ℕ → ℕ → ℕ → Heap → Heap
set_tags bp size alloc h =
    let h1 = put_word (hdrp bp) (pack size alloc) h in
    put_word (ftrp bp h1.bytes) (pack size alloc) h1

-- The two conditions at the start of `coalesce`.
unfoldable pub prev_is_alloc : ℕ → Bytes → Bool
prev_is_alloc bp m = let prev = prev_blkp bp m in not (get_alloc (ftrp prev m) m == 0) || prev == bp

unfoldable pub next_is_alloc : ℕ → Bytes → Bool
next_is_alloc bp m = not (get_alloc (hdrp (next_blkp bp m)) m == 0)

unfoldable pub coalesce_next : ℕ → Heap → ℕ × Heap
coalesce_next bp h =
    let next = next_blkp bp h.bytes in
    let size = get_size (hdrp bp) h.bytes + get_size (hdrp next) h.bytes in
    (bp, set_tags bp size 0 (remove_block next h))

unfoldable pub coalesce_prev : ℕ → Heap → ℕ × Heap
coalesce_prev bp h =
    let prev = prev_blkp bp h.bytes in
    let size = get_size (hdrp bp) h.bytes + get_size (hdrp prev) h.bytes in
    (prev, set_tags prev size 0 (remove_block prev h))

-- The addresses of the neighbours are computed again after each change of memory.
unfoldable pub coalesce_both : ℕ → Heap → ℕ × Heap
coalesce_both bp h =
    let size =
      get_size (hdrp bp) h.bytes
      + (get_size (hdrp (prev_blkp bp h.bytes)) h.bytes
          + get_size (hdrp (next_blkp bp h.bytes)) h.bytes) in
    let h1 = remove_block (prev_blkp bp h.bytes) h in
    let h2 = remove_block (next_blkp bp h1.bytes) h1 in
    let prev = prev_blkp bp h2.bytes in (prev, set_tags prev size 0 h2)

unfoldable pub merge : ℕ → Heap → ℕ × Heap
merge bp h =
    let prev_alloc = prev_is_alloc bp h.bytes in
    let next_alloc = next_is_alloc bp h.bytes in
    if prev_alloc && not next_alloc
    then coalesce_next bp h
    else if not prev_alloc && next_alloc
    then coalesce_prev bp h
    else if not prev_alloc && not next_alloc
    then coalesce_both bp h
    else (bp, h)

unfoldable pub coalesce : ℕ → Heap → ℕ × Heap
coalesce bp h = let (bp', h') = merge bp h in (bp', insert_block bp' h')

-- The size that `extend_heap` asks for, in bytes.
unfoldable pub extend_size : ℕ → ℕ
extend_size words =
    let asize =
      if words % 2 == 0 then words * wsize % word_mod else add32 words 1 * wsize % word_mod in
    if ltb asize minimum then minimum else asize

-- `some 0` is the result NULL; here no search is made, and a result is always given.
unfoldable pub extend_heap : ℕ → Heap → ℕ × Heap
extend_heap words h =
    let asize = extend_size words in
    let (granted, brk') = mem_sbrk asize h.brk in
    let h1 = record h { brk = brk' } in
    elim granted [
      | none ↦ (0, h1)
      | some bp ↦
          let h2 = set_tags bp asize 0 h1 in
          coalesce bp (put_word (hdrp (next_blkp bp h2.bytes)) (pack 0 1) h2)
    ]

-- The fuel is one more than the number of bytes of the heap.
unfoldable pub find_fit : ℕ → Heap → Option ℕ
find_fit asize h = find_fit_loop (mem_heapsize h.brk + 1) asize h.free_listp h

-- The difference is taken in `size_t`.
unfoldable pub place : ℕ → ℕ → Heap → Heap
place bp asize h =
    let csize = get_size (hdrp bp) h.bytes in
    let left = (csize + 2 ^ 64 - asize) % 2 ^ 64 in
    if leb minimum left
    then (let h1 = remove_block bp (set_tags bp asize 1 h) in
        let rest = next_blkp bp h1.bytes in (coalesce rest (set_tags rest left 0 h1)).1)
    else remove_block bp (set_tags bp csize 1 h)

unfoldable pub mm_free : ℕ → Heap → Heap
mm_free bp h = if bp == 0 then h else (coalesce bp (set_tags bp (get_size (hdrp bp) h.bytes) 0 h)).1

-- The stores of `mm_init` before it extends the heap.
unfoldable pub write_prologue : ℕ → Heap → Heap
write_prologue base h =
    let h1 = put_word base 0 h in
    let h2 = put_word (base + wsize) (pack minimum 1) h1 in
    let h3 = put_word (base + dsize) 0 h2 in
    let h4 = put_word (base + dsize + wsize) 0 h3 in
    let h5 = put_word (base + minimum) (pack minimum 1) h4 in
    let h6 = put_word (base + wsize + minimum) (pack 0 1) h5 in
    record h6 { free_listp = base + dsize }

-- The result is what `mm_init` returns, -1 as `false`.
unfoldable pub mm_init : Heap → Bool × Heap
mm_init h =
    let (granted, brk') = mem_sbrk (2 * minimum) h.brk in
    elim granted [
      | none ↦ (false, record h { brk = brk'; heap_listp = 2 ^ 64 - 1 })
      | some base ↦
          let h1 = write_prologue base (record h { brk = brk'; heap_listp = base }) in
          let (bp, h2) = extend_heap (chunksize / wsize) h1 in
          if bp == 0 then (false, h2) else (true, h2)
    ]

-- The block size for a payload of `size` bytes.
unfoldable pub adjusted_size : ℕ → ℕ
adjusted_size size = max_int (add32 (align size) dsize) minimum

-- What `mm_malloc` does where no free block fits.
unfoldable pub malloc_extending : ℕ → Heap → ℕ × Heap
malloc_extending asize h =
    let extendsize = max_int asize chunksize in
    let (bp, h1) = extend_heap (extendsize / wsize) h in
    if bp == 0 then (0, h1) else (bp, place bp asize h1)

unfoldable pub mm_malloc : ℕ → Heap → Option (ℕ × Heap)
mm_malloc size h =
    if size == 0
    then some (0, h)
    else let asize = adjusted_size size in
      elim (find_fit asize h) [
        | none ↦ none
        | some bp ↦ some (if bp == 0 then malloc_extending asize h else (bp, place bp asize h))
      ]

-- A block that is kept where it is, cut off behind `asize` bytes where enough is left.
unfoldable pub shrink : ℕ → ℕ → ℕ → Heap → Heap
shrink ptr oldsize asize h =
    if leb (oldsize - asize) minimum
    then h
    else (let h1 = set_tags ptr asize 1 h in
        let h2 = put_word (hdrp (next_blkp ptr h1.bytes)) (pack (oldsize - asize) 1) h1 in
        mm_free (next_blkp ptr h2.bytes) h2)

-- The old data is copied and the old block freed.
unfoldable pub move_block : ℕ → ℕ → ℕ → ℕ → Heap → Heap
move_block ptr newptr size oldsize h =
    let kept = if ltb size oldsize then size else oldsize in
    mm_free ptr (record h { bytes = copy kept newptr ptr h.bytes })

unfoldable pub mm_realloc : ℕ → ℕ → Heap → Option (ℕ × Heap)
mm_realloc ptr size h =
    let asize = adjusted_size size in
    let oldsize = get_size (hdrp ptr) h.bytes in
    if size == 0
    then some (0, mm_free ptr h)
    else if ptr == 0
    then mm_malloc size h
    else if asize == oldsize
    then some (ptr, h)
    else if leb asize oldsize
    then some (ptr, shrink ptr oldsize asize h)
    else elim (mm_malloc size h) [
      | none ↦ none
      | some (newptr, h1) ↦
          some (if newptr == 0 then (0, h1) else (newptr, move_block ptr newptr size oldsize h1))
    ]
