-- ===== src/Driver/Speed.antt =====
-- `eval_mm_speed` of mdriver.c, which is timed: it runs a trace on the allocator of mm.c and keeps
-- the pointers. `none` where the source reports an error and exits, or a search does not end.
pub mod Laws
use computer_systems_labs.Base.{ℕ, Bool, Option, none, some, List, [], ◌∷◌, ◌==◌, if◌then◌else◌}
use computer_systems_labs.Malloc.Bytes.{update}
use computer_systems_labs.Malloc.Memlib.{mem_reset_brk}
use computer_systems_labs.Malloc.Heap.{Heap}
use computer_systems_labs.Malloc.Alloc.{mm_init, mm_malloc, mm_realloc, mm_free}
use computer_systems_labs.Driver.Valid.{RequestType, alloc, free, realloc, TraceOp}

pub record Timed : Type 0 where
  pub heap : Heap
  pub blocks : ℕ → ℕ

unfoldable pub speed_alloc : ℕ → ℕ → Timed → Option Timed
speed_alloc index size d = elim (mm_malloc size d.heap) [
  | none ↦ none
  | some (p, h) ↦
      if p == 0 then none else some (record { heap = h; blocks = update index p d.blocks })
]

unfoldable pub speed_realloc : ℕ → ℕ → Timed → Option Timed
speed_realloc index newsize d = elim (mm_realloc (d.blocks index) newsize d.heap) [
  | none ↦ none
  | some (newp, h) ↦
      if newp == 0 then none else some (record { heap = h; blocks = update index newp d.blocks })
]

unfoldable pub speed_free : ℕ → Timed → Option Timed
speed_free index d = some (record d { heap = mm_free (d.blocks index) d.heap })

unfoldable pub speed_as : RequestType → ℕ → ℕ → Timed → Option Timed
speed_as alloc index size d = speed_alloc index size d
speed_as realloc index size d = speed_realloc index size d
speed_as free index size d = speed_free index d

unfoldable pub speed_loop : List TraceOp → Timed → Option Timed
speed_loop [] d = some d
speed_loop (op ∷ ops) d = elim (speed_as op.type op.index op.size d) [
  | none ↦ none
  | some d' ↦ speed_loop ops d'
]

unfoldable pub eval_mm_speed : List TraceOp → Heap → (ℕ → ℕ) → Option Timed
eval_mm_speed ops heap blocks =
    let (ready, h) = mm_init (record heap { brk = mem_reset_brk heap.brk }) in
    if ready then speed_loop ops (record { heap = h; blocks = blocks }) else none
