-- ===== src/Tests/Checks.antt =====
-- The checks of the driver on concrete payloads and traces.
use computer_systems_labs.Base.{
  ℕ, ◌+◌, ◌-◌, ◌%◌, ◌<◌, ◌≡◌, ◌⊎◌, ◌↔◌, refl, arith, true, Option, none, some, List, [], ◌∷◌, All,
  sign_bit,
}
use computer_systems_labs.Malloc.Bytes.{update, read, write, copy, fill}
use computer_systems_labs.Malloc.Memlib.{
  Brk, mem_sbrk, mem_reset_brk, mem_heapsize, mem_heap_lo, mem_heap_hi, max_heap,
}
use computer_systems_labs.Malloc.Tags.{
  pack, put, get, get_size, get_alloc, align, max_int, ftrp, next_blkp, prev_blkp, next_free,
  prev_free, set_next_free, set_prev_free,
}
use computer_systems_labs.Malloc.FreeList.{insert_block, unlink_before, remove_block, find_fit_loop}
use computer_systems_labs.Malloc.Alloc.{
  put_word, set_tags, prev_is_alloc, next_is_alloc, coalesce_next, coalesce_prev, coalesce_both,
  merge, coalesce, extend_size, extend_heap, find_fit, place, mm_free, write_prologue, mm_init,
  adjusted_size, malloc_extending, mm_malloc, shrink, move_block, mm_realloc,
}
use computer_systems_labs.Driver.Ranges.{
  Range, added, is_aligned, outside_heap, endpoint_within, overlaps_any, add_range, remove_range,
  clear_ranges,
}
use computer_systems_labs.Driver.Ranges.Laws.{
  IsPlaced, EndsOutside, Disjoint, Inside, add_range_lem, add_range-Disjoint, add_range-enclosing,
  remove_range-add_range,
}
use computer_systems_labs.Driver.Valid.{
  alloc, free, realloc, TraceOp, Driver, Outcome, running, invalid, stopped, stuck, malloc_error,
  char_int, keeps_data, kept_bytes, remember, step_alloc, step_realloc, step_free, step_as, step,
  run_trace, eval_mm_valid,
}
use computer_systems_labs.Driver.Valid.Laws.{IsSound, keeps_data_iff, eval_mm_valid-IsSound}
use computer_systems_labs.Driver.Utilisation.{
  Usage, record_total, util_alloc, util_realloc, util_free, util_as, util_loop,
}
use computer_systems_labs.Driver.Utilisation.{eval_mm_util}
use computer_systems_labs.Driver.Utilisation.Laws.{IsBelow, FreesAll, util_loop-prefix}

abbrev grown : Brk
grown = record { mem_start_brk = 16; mem_brk = 216; mem_max_addr = 16 + max_heap }

abbrev inner : Range
inner = record { lo = 72; hi = 79 }

add_range_example :
    (add_range grown (inner ∷ []) 96 16 ≡ added (record { lo = 96; hi = 111 } ∷ inner ∷ [])) ↔ (
      ((record { lo = 96; hi = 111 } ∷ inner ∷ []) ≡ (record { lo = 96; hi = 111 } ∷ inner ∷ []))
      × (0 < 16)
      × (16 < sign_bit)
      × IsPlaced grown (record { lo = 96; hi = 111 })
      × All (EndsOutside (record { lo = 96; hi = 111 })) (inner ∷ []))
add_range_example =
    add_range_lem grown (inner ∷ []) 96 16 (omega arith) (record { lo = 96; hi = 111 } ∷ inner ∷ [])

accepted : add_range grown (inner ∷ []) 96 16 ≡ added (record { lo = 96; hi = 111 } ∷ inner ∷ [])
unfolding add_range is_aligned outside_heap mem_heap_lo mem_heap_hi overlaps_any endpoint_within
accepted = refl

add_range-Disjoint_example :
    All
      (λ q.
        Inside q (record { lo = 96; hi = 96 + 16 - 1 })
        ⊎ Disjoint (record { lo = 96; hi = 96 + 16 - 1 }) q)
      (inner ∷ [])
add_range-Disjoint_example =
    add_range-Disjoint grown (inner ∷ []) (record { lo = 96; hi = 111 } ∷ inner ∷ []) 96 16
      (omega arith) accepted

add_range-enclosing_example :
    (add_range grown (inner ∷ []) 64 32 ≡ added (record { lo = 64; hi = 95 } ∷ inner ∷ []))
    × ¬ Disjoint (record { lo = 64; hi = 95 }) inner
add_range-enclosing_example =
    add_range-enclosing grown inner 64 32 (omega arith) (omega arith) (omega arith) (omega arith)
      (omega arith) (omega arith)

remove_range-add_range_example :
    remove_range (record { lo = 120; hi = 127 } ∷ record { lo = 96; hi = 111 } ∷ inner ∷ []) 96
    ≡ record { lo = 120; hi = 127 } ∷ inner ∷ []
remove_range-add_range_example =
    remove_range-add_range grown (record { lo = 120; hi = 127 } ∷ []) (inner ∷ [])
      (record { lo = 96; hi = 111 } ∷ inner ∷ []) 96 16 (omega arith) accepted (omega arith, tt)

-- With the index 200 the check fails on data that was kept.
keeps_data_iff_example :
    (keeps_data 4 64 200 (λ _. 200) ≡ true) ↔ ((j : ℕ) → j < 4 → (200 % 256 ≡ 200) × (200 < 128))
keeps_data_iff_example = keeps_data_iff 4 64 200 (λ _. 200) (omega arith)

abbrev fresh : Driver
fresh = record {
  heap = record {
    bytes = λ _. 0;
    brk = record { mem_start_brk = 16; mem_brk = 16; mem_max_addr = 16 + max_heap };
    heap_listp = 0;
    free_listp = 0;
  };
  ranges = [];
  errors = 0;
  blocks = λ _. 0;
  block_sizes = λ _. 0;
}

abbrev trace : List TraceOp
trace =
    record { type = alloc; index = 0; size = 16 }
    ∷ record { type = alloc; index = 1; size = 24 }
    ∷ record { type = free; index = 0; size = 0 }
    ∷ record { type = realloc; index = 1; size = 40 }
    ∷ []

ending : Outcome → Driver
ending (running d) = d
ending (invalid d) = d
ending stopped = fresh
ending stuck = fresh

final : Driver
unfolding update read write copy fill mem_sbrk mem_reset_brk mem_heapsize mem_heap_lo mem_heap_hi
    pack put get get_size get_alloc align max_int ftrp next_blkp prev_blkp next_free prev_free
    set_next_free set_prev_free insert_block unlink_before remove_block find_fit_loop put_word
    set_tags prev_is_alloc next_is_alloc coalesce_next coalesce_prev coalesce_both merge coalesce
    extend_size extend_heap find_fit place mm_free write_prologue mm_init adjusted_size
    malloc_extending mm_malloc shrink move_block mm_realloc is_aligned outside_heap endpoint_within
    overlaps_any add_range remove_range clear_ranges malloc_error char_int keeps_data kept_bytes
    remember step_alloc step_realloc step_free step_as step run_trace eval_mm_valid ending
final = ending (eval_mm_valid trace fresh)

trace_errors : final.errors ≡ 0
unfolding final
trace_errors = refl

valid : eval_mm_valid trace fresh ≡ running final
unfolding final
valid = refl

-- One payload is left, and no error was reported.
final_ranges : final.ranges ≡ record { lo = 120; hi = 159 } ∷ []
unfolding final
final_ranges = refl

eval_mm_valid-IsSound_example : IsSound final
eval_mm_valid-IsSound_example = eval_mm_valid-IsSound trace fresh final (omega arith) valid

started : Usage
unfolding final
started = record {
  heap = (mm_init fresh.heap).1;
  blocks = λ _. 0;
  block_sizes = λ _. 0;
  total_size = 0;
  max_total_size = 0;
}

usage : Option Usage → Usage
usage none = started
usage (some u) = u

finished : Usage
unfolding final started usage record_total util_alloc util_realloc util_free util_as util_loop
finished = usage (util_loop trace started)

-- 16 + 24 bytes, then 24, then 40.
high_water : (finished.max_total_size ≡ 40) × (finished.total_size ≡ 40)
unfolding finished
high_water = (refl, refl)

finishes : util_loop trace started ≡ some finished
unfolding finished
finishes = refl

frees_fit : FreesAll trace started
unfolding finished
frees_fit = (tt, (tt, ((omega arith, omega arith, omega arith), (tt, tt))))

util_loop-prefix_example :
    (v : Usage) × (util_loop (record { type = alloc; index = 0; size = 16 } ∷ []) started ≡ some v)
    × IsBelow v.total_size finished.max_total_size
unfolding started
util_loop-prefix_example =
    util_loop-prefix (record { type = alloc; index = 0; size = 16 } ∷ [])
      (record { type = alloc; index = 1; size = 24 }
        ∷ record { type = free; index = 0; size = 0 }
        ∷ record { type = realloc; index = 1; size = 40 }
        ∷ [])
      started finished finishes frees_fit refl

measured : eval_mm_util trace fresh.heap (λ _. 0) (λ _. 0) ≡ some (40, 152)
unfolding finished eval_mm_util mem_reset_brk mem_heapsize
measured = refl
