-- ===== src/Driver/Ranges.antt =====
-- The range list of mdriver.c: the payloads that are allocated, newest first.
pub mod Laws
use computer_systems_labs.Base.{
  ℕ, ◌+◌, ◌-◌, ◌%◌, Bool, true, false, ◌&&◌, ◌||◌, not, ltb, leb, ◌==◌, if◌then◌else◌, List, [],
  ◌∷◌, sign_bit,
}
use computer_systems_labs.Malloc.Memlib.{Brk, mem_heap_lo, mem_heap_hi}

pub record Range : Type 0 where
  pub lo : ℕ
  pub hi : ℕ

-- `refused` is the result 0 after an error was reported, `aborted` a failed assertion.
pub data Added : Type 0 where
  added : List Range → Added
  refused : Added
  aborted : Added

abbrev pub payload_alignment : ℕ
payload_alignment = 8

unfoldable pub is_aligned : ℕ → Bool
is_aligned p = p % payload_alignment == 0

unfoldable pub outside_heap : Brk → ℕ → ℕ → Bool
outside_heap b lo hi =
    ltb lo (mem_heap_lo b)
    || ltb (mem_heap_hi b) lo
    || ltb hi (mem_heap_lo b)
    || ltb (mem_heap_hi b) hi

-- The test that the loop makes of one payload `p` that is there already.
unfoldable pub endpoint_within : ℕ → ℕ → Range → Bool
endpoint_within lo hi p = (leb p.lo lo && leb lo p.hi) || (leb p.lo hi && leb hi p.hi)

unfoldable pub overlaps_any : ℕ → ℕ → List Range → Bool
overlaps_any lo hi [] = false
overlaps_any lo hi (p ∷ ps) = endpoint_within lo hi p || overlaps_any lo hi ps

-- The size is an `int`, here as its pattern: positive ones lie below the sign bit.
unfoldable pub add_range : Brk → List Range → ℕ → ℕ → Added
add_range b ranges lo size =
    let hi = lo + size - 1 in
    if not (ltb 0 size && ltb size sign_bit)
    then aborted
    else if not (is_aligned lo)
    then refused
    else if outside_heap b lo hi
    then refused
    else if overlaps_any lo hi ranges
    then refused
    else added (record { lo = lo; hi = hi } ∷ ranges)

unfoldable pub remove_range : List Range → ℕ → List Range
remove_range [] lo = []
remove_range (p ∷ ps) lo = if p.lo == lo then ps else p ∷ remove_range ps lo

unfoldable pub clear_ranges : List Range → List Range
clear_ranges ranges = []
