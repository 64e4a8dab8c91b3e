-- ===== src/Malloc/Alloc/Sizes.antt =====
-- The block sizes that `mm_malloc`, `mm_realloc` and `extend_heap` compute from a request.
use computer_systems_labs.Base.{
  ℕ, ◌+◌, ◌-◌, ◌*◌, ◌/◌, ◌%◌, ◌≤◌, ◌<◌, ◌≡◌, arith, word_mod, sign_bit,
}
use computer_systems_labs.Malloc.Tags.{align, max_int, wsize, chunksize}
use computer_systems_labs.Malloc.Tags.Laws.{IsSize, bit_and-size_mask}
use computer_systems_labs.Malloc.Alloc.{adjusted_size, extend_size}

align-add32 : (p : ℕ) → align p ≡ (p + 7) % word_mod - (p + 7) % word_mod % 8
unfolding align
align-add32 p = bit_and-size_mask ((p + 7) % word_mod) (omega arith)

-- For a request of 1 to 2 ^ 31 - 16 bytes the adjusted size is a multiple of 8 below 2 ^ 31, at
-- least 24, holds the request and 8 bytes of tags, and exceeds the request by at most 23.
pub adjusted_size_lem :
    (size : ℕ)
    → 0 < size
    → size ≤ 0x7fff_fff0
    → IsSize (adjusted_size size)
      × (24 ≤ adjusted_size size)
      × (size + 8 ≤ adjusted_size size)
      × (adjusted_size size ≤ size + 23)
      × (adjusted_size size < sign_bit)
unfolding adjusted_size max_int
adjusted_size_lem size pos small = rw (align-add32 size) (ground arith)

-- For every larger request of 32 bits the adjusted size is 24.
pub adjusted_size-overflow :
    (size : ℕ) → 0x7fff_fff0 < size → size < word_mod → adjusted_size size ≡ 24
unfolding adjusted_size max_int
adjusted_size-overflow size large fits = rw (align-add32 size) (ground arith)

-- For fewer than 2 ^ 30 - 1 words, `extend_heap` asks for a multiple of 8 bytes that is at least 24,
-- holds the words, and exceeds them by at most 24 bytes.
pub extend_size_lem :
    (words : ℕ)
    → words < 0x3fff_ffff
    → IsSize (extend_size words)
      × (24 ≤ extend_size words)
      × (words * 4 ≤ extend_size words)
      × (extend_size words ≤ words * 4 + 24)
unfolding extend_size
extend_size_lem words small = ground arith

-- For a request of 1 to 2 ^ 31 - 16 bytes that no free block fits, the heap grows by exactly the
-- adjusted size of the request.
pub extend_size-adjusted_size :
    (size : ℕ)
    → 0 < size
    → size ≤ 0x7fff_fff0
    → extend_size (max_int (adjusted_size size) chunksize / wsize) ≡ adjusted_size size
unfolding extend_size max_int
extend_size-adjusted_size size pos small =
    let bounds = adjusted_size_lem size pos small in ground arith
