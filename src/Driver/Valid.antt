-- ===== src/Driver/Valid.antt =====
-- `eval_mm_valid` of mdriver.c: it runs a trace on the allocator of mm.c and checks every payload.
-- The two arrays of a trace are functions of the index, which `read_trace` has checked.
pub mod Laws
use computer_systems_labs.Base.{
  ℕ, zero, suc, ◌+◌, ◌%◌, bit_and, Bool, true, false, ◌&&◌, ltb, ◌==◌, if◌then◌else◌, Option, none,
  some, List, [], ◌∷◌, word_mod, sign_bit,
}
use computer_systems_labs.Malloc.Bytes.{Bytes, update, fill}
use computer_systems_labs.Malloc.Memlib.{mem_reset_brk}
use computer_systems_labs.Malloc.Heap.{Heap}
use computer_systems_labs.Malloc.Alloc.{mm_init, mm_malloc, mm_realloc, mm_free}
use computer_systems_labs.Driver.Ranges.{
  Range, Added, added, refused, aborted, add_range, remove_range, clear_ranges,
}

pub data RequestType : Type 0 where
  alloc free realloc : RequestType

pub record TraceOp : Type 0 where
  pub type : RequestType
  pub index : ℕ
  pub size : ℕ

pub record Driver : Type 0 where
  pub heap : Heap
  pub ranges : List Range
  pub errors : ℕ
  pub blocks : ℕ → ℕ
  pub block_sizes : ℕ → ℕ

-- `invalid` is the result 0, `stopped` a failed assertion, `stuck` a search that did not end.
pub data Outcome : Type 0 where
  running : Driver → Outcome
  invalid : Driver → Outcome
  stopped : Outcome
  stuck : Outcome

unfoldable pub malloc_error : Driver → Outcome
malloc_error d = invalid (record d { errors = d.errors + 1 })

-- A `char` as the `int` that it is promoted to: its sign is extended.
unfoldable pub char_int : ℕ → ℕ
char_int c = let low = c % 256 in if ltb low 128 then low else low + 0xffff_ff00

-- The loop over the bytes that `realloc` should have kept.
unfoldable pub keeps_data : ℕ → ℕ → ℕ → Bytes → Bool
keeps_data zero p value m = true
keeps_data (suc n) p value m = char_int (m p) == value && keeps_data n (p + 1) value m

-- `if (size < oldsize) oldsize = size`, and the rounds of a loop from 0 up to the result: these are
-- comparisons of `int` values.
unfoldable pub kept_bytes : ℕ → ℕ → ℕ
kept_bytes size oldsize =
    let old = oldsize % word_mod in
    let least =
      if ltb ((size + sign_bit) % word_mod) ((old + sign_bit) % word_mod) then size else old in
    if ltb least sign_bit then least else 0

-- What both kinds of allocation do with a payload that was accepted.
unfoldable pub remember : ℕ → ℕ → ℕ → List Range → Driver → Driver
remember index p size rs d = record d {
  heap = record (d.heap) { bytes = fill size p (bit_and index 0xff) d.heap.bytes };
  ranges = rs;
  blocks = update index p d.blocks;
  block_sizes = update index size d.block_sizes;
}

unfoldable pub step_alloc : ℕ → ℕ → Driver → Outcome
step_alloc index size d = elim (mm_malloc size d.heap) [
  | none ↦ stuck
  | some (p, h) ↦
      let d1 = record d { heap = h } in
      if p == 0 then malloc_error d1 else elim (add_range h.brk d.ranges p size) [
        | added rs ↦ running (remember index p size rs d1)
        | refused ↦ malloc_error d1
        | aborted ↦ stopped
      ]
]

unfoldable pub step_realloc : ℕ → ℕ → Driver → Outcome
step_realloc index size d =
    let oldp = d.blocks index in
    elim (mm_realloc oldp size d.heap) [
      | none ↦ stuck
      | some (newp, h) ↦
          let d1 = record d { heap = h } in
          if newp == 0
          then malloc_error d1
          else (let d2 = record d1 { ranges = remove_range d.ranges oldp } in
              elim (add_range h.brk d2.ranges newp size) [
                | added rs ↦
                    if keeps_data (kept_bytes size (d.block_sizes index)) newp (bit_and index 0xff)
                      h.bytes
                    then running (remember index newp size rs d2)
                    else malloc_error (record d2 { ranges = rs })
                | refused ↦ malloc_error d2
                | aborted ↦ stopped
              ])
    ]

unfoldable pub step_free : ℕ → Driver → Outcome
step_free index d =
    let p = d.blocks index in
    running (record d { ranges = remove_range d.ranges p; heap = mm_free p d.heap })

unfoldable pub step_as : RequestType → ℕ → ℕ → Driver → Outcome
step_as alloc index size d = step_alloc index size d
step_as realloc index size d = step_realloc index size d
step_as free index size d = step_free index d

unfoldable pub step : TraceOp → Driver → Outcome
unfolding step_as
step op d = step_as op.type op.index op.size d

-- The loop over the requests stops at the first that does not leave the driver running.
unfoldable pub run_trace : List TraceOp → Driver → Outcome
run_trace [] d = running d
run_trace (op ∷ ops) d = elim (step op d) [
  | running d' ↦ run_trace ops d'
  | invalid d' ↦ invalid d'
  | stopped ↦ stopped
  | stuck ↦ stuck
]

-- The result 1 is `running`.
unfoldable pub eval_mm_valid : List TraceOp → Driver → Outcome
eval_mm_valid ops d =
    let cleared = record (d.heap) { brk = mem_reset_brk d.heap.brk } in
    let (done, h) = mm_init cleared in
    let d1 = record d { heap = h; ranges = clear_ranges d.ranges } in
    if done then run_trace ops d1 else malloc_error d1
