-- ===== src/Driver/Speed/Laws.antt =====
-- The timed run of a trace and the run that measures its memory take the same steps.
use computer_systems_labs.Base.{
  ℕ, ◌≡◌, refl, Bool-cases, Option, none, some, Option-cases, inl, inr, List, [], ◌∷◌, arith,
}
use computer_systems_labs.Malloc.Alloc.{mm_init, mm_malloc, mm_realloc}
use computer_systems_labs.Malloc.Heap.{Heap}
use computer_systems_labs.Malloc.Memlib.{mem_reset_brk, mem_heapsize}
use computer_systems_labs.Driver.Valid.{RequestType, alloc, free, realloc, TraceOp}
use computer_systems_labs.Driver.Utilisation.{
  Usage, util_as, util_alloc, util_realloc, util_free, util_loop, record_total, eval_mm_util,
}
use computer_systems_labs.Driver.Speed.{
  Timed, speed_as, speed_alloc, speed_realloc, speed_free, speed_loop, eval_mm_speed,
}

-- What the timed run keeps of a state.
abbrev pub timed : Usage → Timed
timed u = record { heap = u.heap; blocks = u.blocks }

abbrev pub timed_result : Option Usage → Option Timed
timed_result none = none
timed_result (some u) = some (timed u)

speed_as-timed :
    (r : RequestType) (index size : ℕ) (u : Usage)
    → speed_as r index size (timed u) ≡ timed_result (util_as r index size u)
unfolding speed_as util_as speed_alloc util_alloc speed_realloc util_realloc speed_free util_free
    record_total
speed_as-timed alloc index size u = elim (Option-cases (mm_malloc size u.heap)) [
  | inl endless ↦ ground (arith, endless)
  | inr ((p, h), found) ↦ ground (arith, found)
]
speed_as-timed realloc index size u =
    elim (Option-cases (mm_realloc (u.blocks index) size u.heap)) [
      | inl endless ↦ ground (arith, endless)
      | inr ((p, h), found) ↦ ground (arith, found)
    ]
speed_as-timed free index size u = refl

-- On every trace, from states with the same heap and pointers, the timed run fails where the measured
-- one does and otherwise ends with the same heap and the same pointers.
pub speed_loop-timed :
    (ops : List TraceOp) (u : Usage) → speed_loop ops (timed u) ≡ timed_result (util_loop ops u)
unfolding speed_loop util_loop
speed_loop-timed [] u = refl
speed_loop-timed (op ∷ ops) u = elim (Option-cases (util_as op.type op.index op.size u)) [
  | inl failed ↦ ground (arith, speed_as-timed op.type op.index op.size u, failed)
  | inr (v, found) ↦
      ground (arith, speed_as-timed op.type op.index op.size u, found, speed_loop-timed ops v)
]

-- Where the run that measures memory returns, the timed run of the same trace from the same heap and
-- pointers returns too, with a heap of the size that was measured.
pub eval_mm_speed-eval_mm_util :
    (ops : List TraceOp) (heap : Heap) (blocks sizes : ℕ → ℕ) (mark : ℕ) (size : ℕ)
    → eval_mm_util ops heap blocks sizes ≡ some (mark, size)
    → (d : Timed) × (eval_mm_speed ops heap blocks ≡ some d) × (mem_heapsize d.heap.brk ≡ size)
unfolding eval_mm_speed eval_mm_util
eval_mm_speed-eval_mm_util ops heap blocks sizes mark size e =
    elim (Bool-cases (mm_init (record heap { brk = mem_reset_brk heap.brk })).0) [
      | inr fails ↦ ground (arith, e, fails)
      | inl ready ↦
          let start = (mm_init (record heap { brk = mem_reset_brk heap.brk })).1 in
          let u : Usage = record {
            heap = start;
            blocks = blocks;
            block_sizes = sizes;
            total_size = 0;
            max_total_size = 0;
          } in
          elim (Option-cases (util_loop ops u)) [
            | inl failed ↦ ground (arith, e, ready, failed)
            | inr (w, found) ↦ (
              timed w,
              ground (arith, ready, found, speed_loop-timed ops u),
              ground (arith, e, ready, found),
            )
          ]
    ]
