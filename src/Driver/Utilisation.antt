-- ===== src/Driver/Utilisation.antt =====
-- `eval_mm_util` of mdriver.c: the high-water mark of the payload bytes, beside the size of the heap.
-- The result is the pair of the two numbers, the first the pattern of an `int`, whose quotient the source returns as a `double`.
pub mod Laws
use computer_systems_labs.Base.{
  ℕ, ◌+◌, ◌-◌, ◌==◌, ltb, if◌then◌else◌, Option, none, some, List, [], ◌∷◌, ◌%◌, add32, sub32,
  le_int, word_mod,
}
use computer_systems_labs.Malloc.Bytes.{update}
use computer_systems_labs.Malloc.Memlib.{mem_reset_brk, mem_heapsize}
use computer_systems_labs.Malloc.Heap.{Heap}
use computer_systems_labs.Malloc.Alloc.{mm_init, mm_malloc, mm_realloc, mm_free}
use computer_systems_labs.Driver.Valid.{RequestType, alloc, free, realloc, TraceOp}

-- The totals are `int` values, here as patterns, and their sums wrap around. A size that is stored
-- among the `size_t` values of the trace comes back as the same `int`.
pub record Usage : Type 0 where
  pub heap : Heap
  pub blocks : ℕ → ℕ
  pub block_sizes : ℕ → ℕ
  pub total_size : ℕ
  pub max_total_size : ℕ

-- `none` where the source reports an error and exits, or a search does not end.
unfoldable pub record_total : ℕ → Usage → Usage
record_total total u = record u {
  total_size = total;
  max_total_size = if le_int total u.max_total_size then u.max_total_size else total;
}

unfoldable pub util_alloc : ℕ → ℕ → Usage → Option Usage
util_alloc index size u = elim (mm_malloc size u.heap) [
  | none ↦ none
  | some (p, h) ↦
      if p == 0
      then none
      else some (
          record_total (add32 u.total_size size) (record u {
            heap = h;
            blocks = update index p u.blocks;
            block_sizes = update index size u.block_sizes;
          }))
]

unfoldable pub util_realloc : ℕ → ℕ → Usage → Option Usage
util_realloc index newsize u =
    let oldsize = u.block_sizes index % word_mod in
    elim (mm_realloc (u.blocks index) newsize u.heap) [
      | none ↦ none
      | some (newp, h) ↦
          if newp == 0
          then none
          else some (
              record_total (add32 u.total_size (sub32 newsize oldsize)) (record u {
                heap = h;
                blocks = update index newp u.blocks;
                block_sizes = update index newsize u.block_sizes;
              }))
    ]

unfoldable pub util_free : ℕ → Usage → Option Usage
util_free index u = some (record u {
  heap = mm_free (u.blocks index) u.heap;
  total_size = sub32 u.total_size (u.block_sizes index % word_mod);
})

unfoldable pub util_as : RequestType → ℕ → ℕ → Usage → Option Usage
util_as alloc index size u = util_alloc index size u
util_as realloc index size u = util_realloc index size u
util_as free index size u = util_free index u

unfoldable pub util_loop : List TraceOp → Usage → Option Usage
util_loop [] u = some u
util_loop (op ∷ ops) u = elim (util_as op.type op.index op.size u) [
  | none ↦ none
  | some u' ↦ util_loop ops u'
]

unfoldable pub eval_mm_util : List TraceOp → Heap → (ℕ → ℕ) → (ℕ → ℕ) → Option (ℕ × ℕ)
eval_mm_util ops heap blocks sizes =
    let (ready, h) = mm_init (record heap { brk = mem_reset_brk heap.brk }) in
    if ready
    then elim (util_loop ops (record {
      heap = h;
      blocks = blocks;
      block_sizes = sizes;
      total_size = 0;
      max_total_size = 0;
    })) [ none ↦ none | some u ↦ some (u.max_total_size, mem_heapsize u.heap.brk) ]
    else none
