-- ===== src/Driver/Trace/Laws.antt =====
-- What `read_trace` has checked of a trace that it accepts.
use mathlib.Core.Path.{subst}
use computer_systems_labs.Base.{
  Option-cases, ℕ, zero, suc, ◌-◌, ◌≤◌, ◌≡◌, inl, inr, refl, ap, Bool-cases, ◌&&◌, List, [], ◌∷◌,
  length, ◌==◌, All, sub32, bias, arith,
}
use computer_systems_labs.Driver.Valid.{RequestType, alloc, free, realloc}
use computer_systems_labs.Driver.Trace.{
  Token, number, word, Trace, Loaded, loaded, failed, aborted, overrun, Scan, larger_index,
  store_op, scan_ops, read_trace, read_header, check_counts,
}
use computer_systems_labs.Driver.Trace.Format.{index_after}

-- What the largest index says of the operations: a request for memory has no larger one.
abbrev pub Indexed : ℕ → RequestType → ℕ → Type 0
Indexed m alloc index = bias index ≤ bias m
Indexed m realloc index = bias index ≤ bias m
Indexed m free index = Unit

-- What the scan has found: `m` is the largest index before it.
abbrev Found : ℕ → ℕ → Scan → Type 0
Found room m s =
    (bias m ≤ bias s.max_index)
    × All (λ op. Indexed s.max_index op.type op.index) s.ops
    × (length s.ops ≤ room)

trace_of : Loaded Trace → Trace
trace_of (loaded t) = t
trace_of _ = record { sugg_heapsize = 0; num_ids = 0; num_ops = 0; weight = 0; ops = [] }

scan_of : Loaded Scan → Scan
scan_of (loaded s) = s
scan_of _ = record { ops = []; max_index = 0 }

index_after-Indexed :
    (r : RequestType) (index m top : ℕ)
    → bias (index_after r index m) ≤ bias top
    → (bias m ≤ bias top) × Indexed top r index
unfolding larger_index
index_after-Indexed alloc index m top h = ground (arith, h)
index_after-Indexed realloc index m top h = ground (arith, h)
index_after-Indexed free index m top h = (h, tt)

-- An operation joins what is found behind it.
store_op-Found :
    (room m : ℕ) (r : RequestType) (index size : ℕ) (rest : Loaded Scan) (s : Scan)
    → ((s' : Scan) → rest ≡ loaded s' → Found (room - 1) (index_after r index m) s')
    → store_op room (record { type = r; index = index; size = size }) rest ≡ loaded s
    → Found room m s
unfolding store_op scan_of
store_op-Found zero m r index size rest s h e = ground (arith, e)
store_op-Found (suc room) m r index size failed s h e = ground (arith, e)
store_op-Found (suc room) m r index size aborted s h e = ground (arith, e)
store_op-Found (suc room) m r index size overrun s h e = ground (arith, e)
store_op-Found (suc room) m r index size (loaded s') s h e =
    let (above, all, fits) = h s' refl in
    let (kept, indexed) = index_after-Indexed r index m s'.max_index above in
    subst (Found (suc room) m) (ap scan_of e) (kept, (indexed, all), omega (fits, arith))

scan_ops-Found :
    (room m : ℕ) (tokens : List Token) (s : Scan)
    → scan_ops room m tokens ≡ loaded s
    → Found room m s
unfolding scan_ops scan_of
scan_ops-Found room m [] s e = subst (Found room m) (ap scan_of e) (omega arith, tt, omega arith)
scan_ops-Found room m (number n ∷ tokens) s e = ground (arith, e)
scan_ops-Found room m (word c ∷ []) s e = ground (arith, e)
scan_ops-Found room m (word c ∷ word d ∷ tokens) s e = ground (arith, e)
scan_ops-Found room m (word c ∷ number index ∷ []) s e = elim (Bool-cases (c == 102)) [
  | inr other ↦ ground (arith, e, other)
  | inl f ↦
      store_op-Found room m free index 0 (scan_ops (room - 1) m []) s
        (scan_ops-Found (room - 1) m []) (ground (arith, e, f))
]
scan_ops-Found room m (word c ∷ number index ∷ word d ∷ tokens) s e = elim (Bool-cases (c == 102)) [
  | inr other ↦ ground (arith, e, other)
  | inl f ↦
      store_op-Found room m free index 0 (scan_ops (room - 1) m (word d ∷ tokens)) s
        (scan_ops-Found (room - 1) m (word d ∷ tokens)) (ground (arith, e, f))
]
scan_ops-Found room m (word c ∷ number index ∷ number size ∷ tokens) s e =
    let behind = scan_ops (room - 1) (larger_index index m) tokens in
    elim (Bool-cases (c == 97)) [
      | inl a ↦
          store_op-Found room m alloc index size behind s
            (scan_ops-Found (room - 1) (larger_index index m) tokens) (ground (arith, e, a))
      | inr no_a ↦ elim (Bool-cases (c == 114)) [
        | inl r ↦
            store_op-Found room m realloc index size behind s
              (scan_ops-Found (room - 1) (larger_index index m) tokens) (ground (arith, e, no_a, r))
        | inr no_r ↦ elim (Bool-cases (c == 102)) [
          | inl f ↦
              store_op-Found room m free index 0 (scan_ops (room - 1) m (number size ∷ tokens)) s
                (scan_ops-Found (room - 1) m (number size ∷ tokens))
                (ground (arith, e, no_a, no_r, f))
          | inr other ↦ ground (arith, e, no_a, no_r, other)
        ]
      ]
    ]

check_counts_lem :
    (t0 t : Trace) (o : Loaded Scan)
    → ((s : Scan) → o ≡ loaded s → Found t0.num_ops 0 s)
    → check_counts t0 o ≡ loaded t
    → All (λ op. Indexed (sub32 t.num_ids 1) op.type op.index) t.ops × (length t.ops ≡ t.num_ops)
unfolding check_counts trace_of
check_counts_lem t0 t failed found e = ground (arith, e)
check_counts_lem t0 t aborted found e = ground (arith, e)
check_counts_lem t0 t overrun found e = ground (arith, e)
check_counts_lem t0 t (loaded s) found e =
    elim (Bool-cases (s.max_index == sub32 t0.num_ids 1 && t0.num_ops == length s.ops)) [
      | inr wrong ↦ ground (arith, e, wrong)
      | inl counts ↦
          let kept : loaded (record t0 { ops = s.ops }) ≡ loaded t = ground (arith, e, counts) in
          let same : record t0 { ops = s.ops } ≡ t = ap trace_of kept in
          let top : s.max_index ≡ sub32 t0.num_ids 1 = ground (arith, counts) in
          subst
            (λ t.
              All (λ op. Indexed (sub32 t.num_ids 1) op.type op.index) t.ops
              × (length t.ops ≡ t.num_ops))
            same
            (
              subst (λ m. All (λ op. Indexed m op.type op.index) s.ops) top (found s refl).1,
              ground (arith, counts),
            )
    ]

-- In a trace that `read_trace` returns, the index of every request for memory is as an `int` at most
-- `num_ids - 1`, and there are as many operations as the file says. Nothing is said of the index of
-- a free.
pub read_trace_lem :
    (tokens : List Token) (t : Trace)
    → read_trace tokens ≡ loaded t
    → All (λ op. Indexed (sub32 t.num_ids 1) op.type op.index) t.ops × (length t.ops ≡ t.num_ops)
unfolding read_trace
read_trace_lem tokens t e = elim (Option-cases (read_header tokens)) [
  | inl bad ↦ ground (arith, e, bad)
  | inr ((t0, rest), header) ↦
      check_counts_lem t0 t (scan_ops t0.num_ops 0 rest) (scan_ops-Found t0.num_ops 0 rest)
        (ground (arith, e, header))
]
