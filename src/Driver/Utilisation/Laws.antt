-- ===== src/Driver/Utilisation/Laws.antt =====
-- The high-water mark bounds the total after every prefix of the trace.
use computer_systems_labs.Base.{
  ℕ, ◌%◌, ◌≤◌, ◌<◌, ◌≡◌, refl, arith, true, none, some, Option-cases, inl, inr, List, [], ◌∷◌, ◌++◌,
  add32, sub32, le_int, bias, word_mod, sign_bit,
}
use mathlib.Core.Path.{subst}
use computer_systems_labs.Malloc.Bytes.{update}
use computer_systems_labs.Malloc.Alloc.{mm_malloc, mm_realloc}
use computer_systems_labs.Driver.Valid.{RequestType, alloc, free, realloc, TraceOp}
use computer_systems_labs.Driver.Utilisation.{
  Usage, record_total, util_alloc, util_realloc, util_free, util_as, util_loop,
}

-- The order of `int` values.
abbrev pub IsBelow : ℕ → ℕ → Type 0
IsBelow x y = le_int x y ≡ true

-- The mark does not fall, and lies at or above the total.
abbrev pub Marked : Usage → Usage → Type 0
Marked u u' = IsBelow u.max_total_size u'.max_total_size × IsBelow u'.total_size u'.max_total_size

record_total-Marked : (total : ℕ) (u : Usage) → Marked u (record_total total u)
unfolding record_total
record_total-Marked total u = ground arith

-- The size that is freed is not negative, and the difference does not overflow.
abbrev pub Frees : RequestType → ℕ → Usage → Type 0
Frees free index u =
    (u.block_sizes index % word_mod < sign_bit)
    × (u.block_sizes index % word_mod ≤ bias u.total_size)
    × (u.total_size < word_mod)
Frees alloc index u = Unit
Frees realloc index u = Unit

-- So it is for every request of the trace.
abbrev pub FreesAll : List TraceOp → Usage → Type 0
FreesAll [] u = Unit
FreesAll (op ∷ ops) u =
    Frees op.type op.index u
    × (elim (util_as op.type op.index op.size u) [ none ↦ Unit | some v ↦ FreesAll ops v ])

-- The order is kept by a smaller total.
freed_total :
    (total mark size : ℕ)
    → total < word_mod
    → size < sign_bit
    → size ≤ bias total
    → IsBelow total mark
    → IsBelow (sub32 total size) mark
freed_total total mark size word small fits h = ground (arith, h)

same_of_some : {u u' : Usage} → some u ≡ some u' → u ≡ u'
same_of_some e = cc

util_as-Marked :
    (type : RequestType) (index size : ℕ) (u u' : Usage)
    → util_as type index size u ≡ some u'
    → Frees type index u
    → IsBelow u.total_size u.max_total_size
    → Marked u u'
unfolding util_as util_alloc util_realloc util_free
util_as-Marked alloc index size u u' e frees h = elim (Option-cases (mm_malloc size u.heap)) [
  | inl endless ↦ ground (arith, endless)
  | inr ((p, g), found) ↦
      let next : Usage = record u {
        heap = g;
        blocks = update index p u.blocks;
        block_sizes = update index size u.block_sizes;
      } in
      let total = add32 u.total_size size in
      let result : record_total total next ≡ u' = ground (arith, found) in
      subst (Marked u) result (record_total-Marked total next)
]
util_as-Marked realloc index size u u' e frees h =
    elim (Option-cases (mm_realloc (u.blocks index) size u.heap)) [
      | inl endless ↦ ground (arith, endless)
      | inr ((p, g), found) ↦
          let next : Usage = record u {
            heap = g;
            blocks = update index p u.blocks;
            block_sizes = update index size u.block_sizes;
          } in
          let total = add32 u.total_size (sub32 size (u.block_sizes index % word_mod)) in
          let result : record_total total next ≡ u' = ground (arith, found) in
          subst (Marked u) result (record_total-Marked total next)
    ]
util_as-Marked free index size u u' e frees h =
    let lower =
      freed_total u.total_size u.max_total_size (u.block_sizes index % word_mod) frees.2 frees.0
        frees.1 h in
    let same : IsBelow u.max_total_size u.max_total_size = ground arith in
    subst (Marked u) (same_of_some e) (same, lower)

IsBelow-trans : (x y z : ℕ) → IsBelow x y → IsBelow y z → IsBelow x z
IsBelow-trans x y z a b = ground (arith, a, b)

FreesAll-next :
    (op : TraceOp) (ops : List TraceOp) (u v : Usage)
    → FreesAll (op ∷ ops) u
    → util_as op.type op.index op.size u ≡ some v
    → FreesAll ops v
FreesAll-next op ops u v frees found =
    subst (λ r. elim r [ none ↦ Unit | some w ↦ FreesAll ops w ]) found frees.1

util_loop-Marked :
    (ops : List TraceOp) (u u' : Usage)
    → util_loop ops u ≡ some u'
    → FreesAll ops u
    → IsBelow u.total_size u.max_total_size
    → Marked u u'
unfolding util_loop
util_loop-Marked [] u u' e frees h =
    let same : IsBelow u.max_total_size u.max_total_size = ground arith in
    subst (Marked u) (same_of_some e) (same, h)
util_loop-Marked (op ∷ ops) u u' e frees h =
    elim (Option-cases (util_as op.type op.index op.size u)) [
      | inl endless ↦ ground (arith, endless)
      | inr (v, found) ↦
          let first = util_as-Marked op.type op.index op.size u v found frees.0 h in
          let rest =
            util_loop-Marked ops v u' (ground (arith, found)) (FreesAll-next op ops u v frees found)
              first.1 in
          (IsBelow-trans u.max_total_size v.max_total_size u'.max_total_size first.0 rest.0, rest.1)
    ]

-- After every part `xs` of a trace that runs to its end, the run has reached a state whose total of
-- payload bytes is as an `int` at most the mark that the whole trace leaves, if that held at the start
-- and every block that is freed has a size that is not negative as an `int` and can be taken from the
-- total without an overflow.
pub util_loop-prefix :
    (xs ys : List TraceOp) (u w : Usage)
    → util_loop (xs ++ ys) u ≡ some w
    → FreesAll (xs ++ ys) u
    → IsBelow u.total_size u.max_total_size
    → (v : Usage) × (util_loop xs u ≡ some v) × IsBelow v.total_size w.max_total_size
unfolding util_loop
util_loop-prefix [] ys u w e frees h =
    let marked = util_loop-Marked ys u w e frees h in
    (u, refl, IsBelow-trans u.total_size u.max_total_size w.max_total_size h marked.0)
util_loop-prefix (op ∷ xs) ys u w e frees h =
    elim (Option-cases (util_as op.type op.index op.size u)) [
      | inl endless ↦ ground (arith, endless)
      | inr (v, found) ↦
          let first = util_as-Marked op.type op.index op.size u v found frees.0 h in
          let rest =
            util_loop-prefix xs ys v w (ground (arith, found))
              (FreesAll-next op (xs ++ ys) u v frees found) first.1 in
          rw (found, util_loop) rest
    ]
