-- ===== src/Driver/Trace/Format.antt =====
-- `read_trace` reads back every trace that is written in its format.
use computer_systems_labs.Base.{
  ℕ, zero, suc, ◌-◌, ◌≤◌, ◌≡◌, refl, ap, ◌∙◌, true, ◌&&◌, List, [], ◌∷◌, length, ◌==◌, All, sub32,
  arith,
}
use computer_systems_labs.Driver.Valid.{RequestType, alloc, free, realloc, TraceOp}
use computer_systems_labs.Driver.Trace.{
  Token, number, word, Trace, loaded, larger_index, store_op, scan_ops, read_trace, read_header,
  read_number, check_counts,
}

-- The format: a letter, an index and, unless the request is a free, a size.
unfoldable pub print_as : RequestType → ℕ → ℕ → List Token → List Token
print_as alloc index size rest = word 97 ∷ number index ∷ number size ∷ rest
print_as realloc index size rest = word 114 ∷ number index ∷ number size ∷ rest
print_as free index size rest = word 102 ∷ number index ∷ rest

unfoldable pub print_ops : List TraceOp → List Token
print_ops [] = []
print_ops (op ∷ ops) = print_as op.type op.index op.size (print_ops ops)

unfoldable pub print_trace : Trace → List Token
print_trace t =
    number t.sugg_heapsize ∷ number t.num_ids ∷ number t.num_ops ∷ number t.weight ∷ print_ops t.ops

-- The index that counts for the largest one: that of a free does not.
abbrev pub index_after : RequestType → ℕ → ℕ → ℕ
index_after alloc index m = larger_index index m
index_after realloc index m = larger_index index m
index_after free index m = m

unfoldable pub largest_index : List TraceOp → ℕ → ℕ
largest_index [] m = m
largest_index (op ∷ ops) m = largest_index ops (index_after op.type op.index m)

-- A free request has no size.
abbrev pub Sized : RequestType → ℕ → Type 0
Sized alloc size = Unit
Sized realloc size = Unit
Sized free size = size ≡ 0

-- A trace whose counts are right.
pub record IsTrace (t : Trace) : Type 0 where
  pub counted : t.num_ops ≡ length t.ops
  pub indexed : largest_index t.ops 0 ≡ sub32 t.num_ids 1
  pub sizes : All (λ op. Sized op.type op.size) t.ops

scan_ops-free :
    (room m index : ℕ) (ops : List TraceOp)
    → scan_ops room m (word 102 ∷ number index ∷ print_ops ops)
      ≡ store_op room
          (record { type = free; index = index; size = 0 })
          (scan_ops (room - 1) m (print_ops ops))
unfolding scan_ops print_ops print_as
scan_ops-free room m index [] = refl
scan_ops-free room m index (op ∷ ops) = go op.type op.index op.size
  where
    go :
        (r : RequestType) (i size : ℕ)
        → scan_ops room m (word 102 ∷ number index ∷ print_as r i size (print_ops ops))
          ≡ store_op room
              (record { type = free; index = index; size = 0 })
              (scan_ops (room - 1) m (print_as r i size (print_ops ops)))
    go alloc i size = refl
    go realloc i size = refl
    go free i size = refl

scan_ops-print_as :
    (room m : ℕ) (r : RequestType) (index size : ℕ) (ops : List TraceOp)
    → Sized r size
    → scan_ops room m (print_as r index size (print_ops ops))
      ≡ store_op room
          (record { type = r; index = index; size = size })
          (scan_ops (room - 1) (index_after r index m) (print_ops ops))
unfolding scan_ops print_as
scan_ops-print_as room m alloc index size ops h = refl
scan_ops-print_as room m realloc index size ops h = refl
scan_ops-print_as room m free index size ops h = rw h (scan_ops-free room m index ops)

scan_ops-print_ops :
    (room m : ℕ) (ops : List TraceOp)
    → length ops ≤ room
    → All (λ op. Sized op.type op.size) ops
    → scan_ops room m (print_ops ops)
      ≡ loaded (record { ops = ops; max_index = largest_index ops m })
unfolding print_ops largest_index store_op scan_ops
scan_ops-print_ops room m [] fits sized = refl
scan_ops-print_ops zero m (op ∷ ops) fits sized = absurd (omega arith)
scan_ops-print_ops (suc room) m (op ∷ ops) fits sized =
    scan_ops-print_as (suc room) m op.type op.index op.size ops sized.0
    ∙ ap (store_op (suc room) op) (
        ap (λ k. scan_ops k (index_after op.type op.index m) (print_ops ops)) (omega arith)
        ∙ scan_ops-print_ops room (index_after op.type op.index m) ops (omega (fits, arith))
            sized.1)

-- A trace whose counts are right is read back from what is written for it.
pub read_trace-print_trace : (t : Trace) → IsTrace t → read_trace (print_trace t) ≡ loaded t
unfolding read_trace print_trace read_header read_number check_counts
read_trace-print_trace t i =
    let counts : (largest_index t.ops 0 == sub32 t.num_ids 1 && t.num_ops == length t.ops) ≡ true =
      ground (arith, i.indexed, i.counted) in
    rw (scan_ops-print_ops t.num_ops 0 t.ops (omega (i.counted, arith)) i.sizes, counts) refl
