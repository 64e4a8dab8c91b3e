-- ===== src/Driver/Valid/Laws.antt =====
-- What the driver has established when it calls a trace valid.
use computer_systems_labs.Base.{
  ℕ, zero, suc, ◌+◌, ◌%◌, ◌≤◌, ◌<◌, ◌≡◌, ◌↔◌, ◌⊎◌, refl, ◌∙◌, arith, true, Option-cases, inl, inr,
  List, [], ◌∷◌, All,
}
use native.Mathlib.Nat.{add-zero}
use mathlib.Core.Path.{subst}
use computer_systems_labs.Malloc.Bytes.{Bytes}
use computer_systems_labs.Malloc.Memlib.{Brk, mem_reset_brk}
use computer_systems_labs.Malloc.Alloc.{mm_init, mm_malloc, mm_realloc}
use computer_systems_labs.Malloc.Alloc.Growth.{
  Grows, mm_malloc-Grows, mm_realloc-Grows, mm_init-Grows, mm_free-brk,
}
use computer_systems_labs.Driver.Ranges.{
  Range, Added, added, refused, aborted, add_range, remove_range, clear_ranges,
}
use computer_systems_labs.Driver.Ranges.Laws.{IsPlaced, add_range_lem, remove_range-All}
use computer_systems_labs.Driver.Valid.{
  RequestType, alloc, free, realloc, TraceOp, Driver, Outcome, running, invalid, stopped, stuck,
  malloc_error, char_int, keeps_data, remember, step_alloc, step_realloc, step_free, step_as, step,
  run_trace, eval_mm_valid,
}

keeps_data_sound :
    (n p value : ℕ) (m : Bytes)
    → value < 256
    → keeps_data n p value m ≡ true
    → (j : ℕ) → j < n
    → (m (p + j) % 256 ≡ value) × (value < 128)
unfolding keeps_data char_int
keeps_data_sound zero p value m h e j lt = absurd (omega arith)
keeps_data_sound (suc n) p value m h e zero lt = rw (add-zero p) (ground arith)
keeps_data_sound (suc n) p value m h e (suc j) lt =
    rw (shift p j) (keeps_data_sound n (p + 1) value m h (ground arith) j (omega arith))
  where
    shift : (a b : ℕ) → a + suc b ≡ a + 1 + b
    shift a b = omega arith

keeps_data_complete :
    (n p value : ℕ) (m : Bytes)
    → ((j : ℕ) → j < n → (m (p + j) % 256 ≡ value) × (value < 128))
    → keeps_data n p value m ≡ true
unfolding keeps_data char_int
keeps_data_complete zero p value m all = refl
keeps_data_complete (suc n) p value m all =
    let here : (m p % 256 ≡ value) × (value < 128) = rw add-zero at (all 0 (omega arith)) in
    let rest =
      keeps_data_complete n (p + 1) value m (λ j lt. rw (shift p j) (all (suc j) (omega arith))) in
    ground arith
  where
    shift : (a b : ℕ) → a + 1 + b ≡ a + suc b
    shift a b = omega arith

-- For a stored byte below 256, the check of `n` kept bytes passes exactly when each of them is
-- that byte and the byte is below 128: a `char` is signed.
pub keeps_data_iff :
    (n p value : ℕ) (m : Bytes)
    → value < 256
    → (keeps_data n p value m ≡ true)
      ↔ ((j : ℕ) → j < n → (m (p + j) % 256 ≡ value) × (value < 128))
keeps_data_iff n p value m h = (keeps_data_sound n p value m h, keeps_data_complete n p value m)

-- The heap has a break in its storage, and every payload on the list is aligned and in the heap.
pub record IsSound (d : Driver) : Type 0 where
  pub not_null : 0 < d.heap.brk.mem_start_brk
  pub above : d.heap.brk.mem_start_brk ≤ d.heap.brk.mem_brk
  pub placed : All (IsPlaced d.heap.brk) d.ranges

IsPlaced-Grows :
    {b b' : Brk} (ps : List Range) → Grows b b' → All (IsPlaced b) ps → All (IsPlaced b') ps
IsPlaced-Grows [] g h = tt
IsPlaced-Grows (p ∷ ps) g h = (ground arith, IsPlaced-Grows ps g h.1)

Added-cases : (r : Added) → ((rs : List Range) × (r ≡ added rs)) ⊎ (r ≡ refused) ⊎ (r ≡ aborted)
Added-cases (added rs) = inl (rs, refl)
Added-cases refused = inr (inl refl)
Added-cases aborted = inr (inr refl)

-- A payload that is accepted joins the others in a sound state.
added-IsPlaced :
    (b b' : Brk) (ps rs : List Range) (lo size : ℕ)
    → 0 < b.mem_start_brk
    → b.mem_start_brk ≤ b.mem_brk
    → Grows b b'
    → All (IsPlaced b) ps
    → add_range b' ps lo size ≡ added rs
    → All (IsPlaced b') rs
added-IsPlaced b b' ps rs lo size pos above g h e =
    let t = (add_range_lem b' ps lo size (omega arith) rs).0 e in
    rw (t.0) (t.3, IsPlaced-Grows ps g h)

running-injective : {d d' : Driver} → running d ≡ running d' → d ≡ d'
running-injective e = cc

remember-IsSound :
    (index p size : ℕ) (rs : List Range) (d : Driver)
    → 0 < d.heap.brk.mem_start_brk
    → d.heap.brk.mem_start_brk ≤ d.heap.brk.mem_brk
    → All (IsPlaced d.heap.brk) rs
    → IsSound (remember index p size rs d)
unfolding remember
remember-IsSound index p size rs d pos above placed = record {
  not_null = pos;
  above = above;
  placed = placed;
}

step_alloc-IsSound :
    (index size : ℕ) (d d' : Driver) → IsSound d → step_alloc index size d ≡ running d' → IsSound d'
unfolding step_alloc malloc_error
step_alloc-IsSound index size d d' s e = elim (Option-cases (mm_malloc size d.heap)) [
  | inl endless ↦ ground (arith, endless)
  | inr ((p, h), found) ↦ elim (Added-cases (add_range h.brk d.ranges p size)) [
    | inl (rs, ok) ↦
        let grows = mm_malloc-Grows size p d.heap h found in
        let placed =
          added-IsPlaced d.heap.brk h.brk d.ranges rs p size s.not_null s.above grows s.placed ok in
        let result : remember index p size rs (record d { heap = h }) ≡ d' =
          ground (arith, found, ok) in
        subst IsSound result (
          remember-IsSound index p size rs (record d { heap = h }) (omega arith) (omega arith)
            placed)
    | inr failed ↦ ground (arith, found, failed)
  ]
]

step_realloc-IsSound :
    (index size : ℕ) (d d' : Driver)
    → IsSound d
    → step_realloc index size d ≡ running d'
    → IsSound d'
unfolding step_realloc malloc_error
step_realloc-IsSound index size d d' s e =
    let oldp = d.blocks index in
    elim (Option-cases (mm_realloc oldp size d.heap)) [
      | inl endless ↦ ground (arith, endless)
      | inr ((p, h), found) ↦
          let left = remove_range d.ranges oldp in
          let d2 = record d { heap = h; ranges = left } in
          elim (Added-cases (add_range h.brk left p size)) [
            | inl (rs, ok) ↦
                let grows = mm_realloc-Grows oldp size p d.heap h found in
                let kept = remove_range-All (IsPlaced d.heap.brk) d.ranges oldp s.placed in
                let placed =
                  added-IsPlaced d.heap.brk h.brk left rs p size s.not_null s.above grows kept ok in
                let result : remember index p size rs d2 ≡ d' = ground (arith, found, ok) in
                subst IsSound result
                  (remember-IsSound index p size rs d2 (omega arith) (omega arith) placed)
            | inr failed ↦ ground (arith, found, failed)
          ]
    ]

step_free-IsSound :
    (index : ℕ) (d d' : Driver) → IsSound d → step_free index d ≡ running d' → IsSound d'
unfolding step_free
step_free-IsSound index d d' s e = subst IsSound (running-injective e) (record {
  not_null = rw (mm_free-brk (d.blocks index) d.heap) s.not_null;
  above = rw (mm_free-brk (d.blocks index) d.heap) s.above;
  placed =
      rw (mm_free-brk (d.blocks index) d.heap)
        (remove_range-All (IsPlaced d.heap.brk) d.ranges (d.blocks index) s.placed);
})

step_as-IsSound :
    (type : RequestType) (index size : ℕ) (d d' : Driver)
    → IsSound d
    → step_as type index size d ≡ running d'
    → IsSound d'
unfolding step_as
step_as-IsSound alloc index size d d' s e = step_alloc-IsSound index size d d' s e
step_as-IsSound realloc index size d d' s e = step_realloc-IsSound index size d d' s e
step_as-IsSound free index size d d' s e = step_free-IsSound index d d' s e

step_as-step : (op : TraceOp) (d : Driver) → step_as op.type op.index op.size d ≡ step op d
unfolding step
step_as-step op d = refl

Outcome-cases :
    (o : Outcome)
    → ((d : Driver) × (o ≡ running d))
      ⊎ ((d : Driver) × (o ≡ invalid d))
      ⊎ (o ≡ stopped)
      ⊎ (o ≡ stuck)
Outcome-cases (running d) = inl (d, refl)
Outcome-cases (invalid d) = inr (inl (d, refl))
Outcome-cases stopped = inr (inr (inl refl))
Outcome-cases stuck = inr (inr (inr refl))

run_trace-IsSound :
    (ops : List TraceOp) (d d' : Driver) → IsSound d → run_trace ops d ≡ running d' → IsSound d'
unfolding run_trace
run_trace-IsSound [] d d' s e = subst IsSound (running-injective e) s
run_trace-IsSound (op ∷ ops) d d' s e = elim (Outcome-cases (step op d)) [
  | inl (d1, ok) ↦
      let one = step_as-IsSound op.type op.index op.size d d1 s (step_as-step op d ∙ ok) in
      run_trace-IsSound ops d1 d' one (ground (arith, ok))
  | inr failed ↦ ground (arith, failed)
]

-- A trace that `eval_mm_valid` calls valid leaves every payload on the list aligned and inside
-- the heap, where the storage of the heap is not at 0.
pub eval_mm_valid-IsSound :
    (ops : List TraceOp) (d d' : Driver)
    → 0 < d.heap.brk.mem_start_brk
    → eval_mm_valid ops d ≡ running d'
    → IsSound d'
unfolding eval_mm_valid clear_ranges malloc_error
eval_mm_valid-IsSound ops d d' pos e =
    let cleared = record (d.heap) { brk = mem_reset_brk d.heap.brk } in
    let d1 : Driver = record d { heap = (mm_init cleared).1; ranges = [] } in
    let grown = mm_init-Grows cleared in
    let started : IsSound d1 = record {
      not_null = reset_start;
      above = reset_above;
      placed = tt;
    } in
    run_trace-IsSound ops d1 d' started (ground arith)
  where
    reset_grows :
        Grows
          (mem_reset_brk d.heap.brk)
          (mm_init (record (d.heap) { brk = mem_reset_brk d.heap.brk })).1.brk
    reset_grows = mm_init-Grows (record (d.heap) { brk = mem_reset_brk d.heap.brk })

    reset_start :
        0 < (mm_init (record (d.heap) { brk = mem_reset_brk d.heap.brk })).1.brk.mem_start_brk
    reset_start = unfold mem_reset_brk in omega (arith, reset_grows)

    reset_above :
        (mm_init (record (d.heap) { brk = mem_reset_brk d.heap.brk })).1.brk.mem_start_brk
        ≤ (mm_init (record (d.heap) { brk = mem_reset_brk d.heap.brk })).1.brk.mem_brk
    reset_above = unfold mem_reset_brk in omega (arith, reset_grows)
