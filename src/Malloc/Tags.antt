-- ===== src/Malloc/Tags.antt =====
-- The macros of mm.c: a block is named by the address `bp` of its payload; the word before it and
-- the last word of the block hold its size with the lowest bit for "allocated". Addresses are
-- below 2 ^ 63 and differences of addresses stay in the heap, outside of which C defines none.
pub mod Laws
use computer_systems_labs.Base.{
  ℕ, ◌+◌, ◌-◌, ◌%◌, bit_and, bit_or, add32, word_mod, sign_bit, ltb, if◌then◌else◌,
}
use computer_systems_labs.Malloc.Bytes.{Bytes, read, write}

abbrev pub wsize : ℕ
wsize = 4

abbrev pub dsize : ℕ
dsize = 8

abbrev pub chunksize : ℕ
chunksize = 16

abbrev pub minimum : ℕ
minimum = 24

-- `~0x7` as an `unsigned`
abbrev pub size_mask : ℕ
size_mask = 0xffff_fff8

unfoldable pub align : ℕ → ℕ
align p = bit_and (add32 p 7) size_mask

-- `MAX` compares two `int` values, here as patterns: adding the sign bit makes their order the
-- order of the numbers.
unfoldable pub max_int : ℕ → ℕ → ℕ
max_int x y = if ltb ((y + sign_bit) % word_mod) ((x + sign_bit) % word_mod) then x else y

unfoldable pub pack : ℕ → ℕ → ℕ
pack size alloc = bit_or (size % word_mod) (bit_and alloc 1)

unfoldable pub get : ℕ → Bytes → ℕ
get p m = read 4 p m

unfoldable pub put : ℕ → ℕ → Bytes → Bytes
put p val m = write 4 p val m

unfoldable pub get_size : ℕ → Bytes → ℕ
get_size p m = bit_and (get p m) size_mask

unfoldable pub get_alloc : ℕ → Bytes → ℕ
get_alloc p m = bit_and (get p m) 1

abbrev pub hdrp : ℕ → ℕ
hdrp bp = bp - wsize

unfoldable pub ftrp : ℕ → Bytes → ℕ
ftrp bp m = bp + get_size (hdrp bp) m - dsize

unfoldable pub next_blkp : ℕ → Bytes → ℕ
next_blkp bp m = bp + get_size (bp - wsize) m

unfoldable pub prev_blkp : ℕ → Bytes → ℕ
prev_blkp bp m = bp - get_size (bp - dsize) m

-- The links of a free block, in its payload: pointers of 8 bytes.
unfoldable pub next_free : ℕ → Bytes → ℕ
next_free bp m = read 8 (bp + dsize) m

unfoldable pub prev_free : ℕ → Bytes → ℕ
prev_free bp m = read 8 bp m

unfoldable pub set_next_free : ℕ → ℕ → Bytes → Bytes
set_next_free bp p m = write 8 (bp + dsize) p m

unfoldable pub set_prev_free : ℕ → ℕ → Bytes → Bytes
set_prev_free bp p m = write 8 bp p m
