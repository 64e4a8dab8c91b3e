-- ===== src/Driver/Trace.antt =====
-- `read_trace` of mdriver.c. The file is the sequence of what `fscanf` reads: unsigned decimal
-- numbers, and words, of which the code looks at the first character.
pub mod Format
pub mod Laws
use computer_systems_labs.Base.{
  Option, none, some, ◌>>=◌, ℕ, zero, suc, ◌+◌, ◌-◌, ◌%◌, Bool, true, false, ◌&&◌, List, [], ◌∷◌,
  ◌++◌, ltb, leb, ◌==◌, if◌then◌else◌, length, sub32, le_int, word_mod,
}
use computer_systems_labs.Driver.Valid.{RequestType, alloc, free, realloc, TraceOp}

pub data Token : Type 0 where
  number : ℕ → Token
  word : ℕ → Token

pub record Trace : Type 0 where
  pub sugg_heapsize : ℕ
  pub num_ids : ℕ
  pub num_ops : ℕ
  pub weight : ℕ
  pub ops : List TraceOp

-- `failed` is an exit with a message, `aborted` a failed assertion, and `overrun` a store behind the
-- end of the array of operations.
pub data Loaded {ℓ} (A : Type ℓ) : Type ℓ where
  loaded : A → Loaded A
  failed : Loaded A
  aborted : Loaded A
  overrun : Loaded A

-- `(index > max_index) ? index : max_index`, on `int` values
unfoldable pub larger_index : ℕ → ℕ → ℕ
larger_index index max_index = if le_int index max_index then max_index else index

-- What the loop has found: the operations from here on and the largest index.
pub record Scan : Type 0 where
  pub ops : List TraceOp
  pub max_index : ℕ

-- `trace->ops[op_index] = ...`, with the places that are left.
unfoldable pub store_op : ℕ → TraceOp → Loaded Scan → Loaded Scan
store_op zero op rest = overrun
store_op (suc room) op (loaded s) = loaded (record s { ops = op ∷ s.ops })
store_op (suc room) op failed = failed
store_op (suc room) op aborted = aborted
store_op (suc room) op overrun = overrun

-- The loop over the requests, the array having `room` places left. Each request is a letter, an
-- index and, unless it is an `f`, a size; the size of a free request is what the array had there,
-- which nothing reads, and is 0 here.
unfoldable pub scan_ops : ℕ → ℕ → List Token → Loaded Scan
scan_ops room max_index [] = loaded (record { ops = []; max_index = max_index })
scan_ops room max_index (number n ∷ tokens) = failed
scan_ops room max_index (word c ∷ []) = failed
scan_ops room max_index (word c ∷ word d ∷ tokens) = failed
scan_ops room max_index (word c ∷ number index ∷ []) =
    if c == 102
    then store_op room (record { type = free; index = index; size = 0 })
        (scan_ops (room - 1) max_index [])
    else failed
scan_ops room max_index (word c ∷ number index ∷ word d ∷ tokens) =
    let rest = scan_ops (room - 1) max_index (word d ∷ tokens) in
    if c == 102
    then store_op room (record { type = free; index = index; size = 0 }) rest
    else failed
scan_ops room max_index (word c ∷ number index ∷ number size ∷ tokens) =
    let rest = scan_ops (room - 1) (larger_index index max_index) tokens in
    if c == 97
    then store_op room (record { type = alloc; index = index; size = size }) rest
    else if c == 114
    then store_op room (record { type = realloc; index = index; size = size }) rest
    else if c == 102
    then store_op room (record { type = free; index = index; size = 0 })
        (scan_ops (room - 1) max_index (number size ∷ tokens))
    else failed

-- `fscanf` of one number.
unfoldable pub read_number : List Token → Option (ℕ × List Token)
read_number (number n ∷ tokens) = some (n, tokens)
read_number (word c ∷ tokens) = none
read_number [] = none

-- The four numbers at the start of a file, in a trace without operations, and what follows.
unfoldable pub read_header : List Token → Option (Trace × List Token)
read_header tokens = do
  (heapsize, tokens1) ← read_number tokens
  (ids, tokens2) ← read_number tokens1
  (num, tokens3) ← read_number tokens2
  (weight, rest) ← read_number tokens3
  some (
    record { sugg_heapsize = heapsize; num_ids = ids; num_ops = num; weight = weight; ops = [] },
    rest,
  )

-- The assertions at the end.
unfoldable pub check_counts : Trace → Loaded Scan → Loaded Trace
check_counts t (loaded s) =
    if s.max_index == sub32 t.num_ids 1 && t.num_ops == length s.ops
    then loaded (record t { ops = s.ops })
    else aborted
check_counts t failed = failed
check_counts t aborted = aborted
check_counts t overrun = overrun

unfoldable pub read_trace : List Token → Loaded Trace
read_trace tokens = elim (read_header tokens) [
  | none ↦ failed
  | some (t, rest) ↦ check_counts t (scan_ops t.num_ops 0 rest)
]
