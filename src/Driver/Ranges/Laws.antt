-- ===== src/Driver/Ranges/Laws.antt =====
-- What an accepted payload is known to satisfy, and what it is not.
use computer_systems_labs.Base.{
  ℕ, ◌+◌, ◌-◌, ◌%◌, ◌≤◌, ◌<◌, ◌≡◌, ◌⊎◌, ◌↔◌, inl, inr, refl, arith, false, true, ap, ◌++◌, ◌≢◌,
  ◌==◌, List, [], ◌∷◌, All, sign_bit, Bool-cases,
}
use computer_systems_labs.Malloc.Memlib.{Brk, mem_heap_lo, mem_heap_hi}
use computer_systems_labs.Driver.Ranges.{
  Range, added, is_aligned, outside_heap, endpoint_within, overlaps_any, add_range, remove_range,
}

-- The payload from `lo` to `hi` lies in the heap and starts at a multiple of 8.
abbrev pub IsPlaced : Brk → Range → Type 0
IsPlaced b p = (p.lo % 8 ≡ 0) × (b.mem_start_brk ≤ p.lo) × (p.lo ≤ p.hi) × (p.hi + 1 ≤ b.mem_brk)

-- Neither end of `p` lies in `q`.
abbrev pub EndsOutside : Range → Range → Type 0
EndsOutside p q = ((p.lo < q.lo) ⊎ (q.hi < p.lo)) × ((p.hi < q.lo) ⊎ (q.hi < p.hi))

-- No address is in both.
abbrev pub Disjoint : Range → Range → Type 0
Disjoint p q = (p.hi < q.lo) ⊎ (q.hi < p.lo)

-- `q` lies strictly inside `p`.
abbrev pub Inside : Range → Range → Type 0
Inside q p = (p.lo < q.lo) × (q.hi < p.hi)

overlaps_any_sound :
    (lo hi : ℕ) (ps : List Range)
    → overlaps_any lo hi ps ≡ false
    → All (EndsOutside (record { lo = lo; hi = hi })) ps
unfolding overlaps_any endpoint_within
overlaps_any_sound lo hi [] e = tt
overlaps_any_sound lo hi (p ∷ ps) e = (ground arith, overlaps_any_sound lo hi ps (ground arith))

overlaps_any_complete :
    (lo hi : ℕ) (ps : List Range)
    → All (EndsOutside (record { lo = lo; hi = hi })) ps
    → overlaps_any lo hi ps ≡ false
unfolding overlaps_any endpoint_within
overlaps_any_complete lo hi [] e = refl
overlaps_any_complete lo hi (p ∷ ps) e = ground (arith, overlaps_any_complete lo hi ps e.1)

module _ (b : Brk) (ranges : List Range) (lo size : ℕ) (heap : 0 < b.mem_brk) where
  abbrev payload : Range
  payload = record { lo = lo; hi = lo + size - 1 }

  tests_iff :
      (rs : List Range)
      → (add_range b ranges lo size ≡ added rs) ↔ (
          (rs ≡ payload ∷ ranges)
          × (0 < size)
          × (size < sign_bit)
          × IsPlaced b payload
          × (overlaps_any lo (lo + size - 1) ranges ≡ false))
  unfolding add_range is_aligned outside_heap mem_heap_lo mem_heap_hi
  tests_iff rs = ground arith

  -- A payload is accepted exactly when its size is positive as an `int`, it is aligned and inside
  -- the heap, and neither of its ends lies in a payload that is there; it then leads the list.
  pub add_range_lem :
      (rs : List Range)
      → (add_range b ranges lo size ≡ added rs) ↔ (
          (rs ≡ payload ∷ ranges)
          × (0 < size)
          × (size < sign_bit)
          × IsPlaced b payload
          × All (EndsOutside payload) ranges)
  add_range_lem rs = (
    λ e.
        let t = (tests_iff rs).0 e in
        (t.0, t.1, t.2, t.3, overlaps_any_sound lo (lo + size - 1) ranges t.4),
    λ p. (tests_iff rs).1 (p.0, p.1, p.2, p.3, overlaps_any_complete lo (lo + size - 1) ranges p.4),
  )

-- Two payloads neither of which lies strictly inside the other are disjoint once the ends of one
-- are outside of the other.
EndsOutside-Disjoint : (p q : Range) → p.lo ≤ p.hi → EndsOutside p q → (Inside q p) ⊎ Disjoint p q
EndsOutside-Disjoint p q h e = ground arith

-- Each payload on the list is disjoint from one that `add_range` accepts, or lies strictly inside
-- it, where the heap has a break.
pub add_range-Disjoint :
    (b : Brk) (ranges rs : List Range) (lo size : ℕ)
    → 0 < b.mem_brk
    → add_range b ranges lo size ≡ added rs
    → All
        (λ q.
          Inside q (record { lo = lo; hi = lo + size - 1 })
          ⊎ Disjoint (record { lo = lo; hi = lo + size - 1 }) q)
        ranges
add_range-Disjoint b ranges rs lo size heap e =
    let t = (add_range_lem b ranges lo size heap rs).0 e in each ranges t.3.2 t.4
  where
    each :
        (qs : List Range)
        → lo ≤ lo + size - 1
        → All (EndsOutside (record { lo = lo; hi = lo + size - 1 })) qs
        → All
            (λ q.
              Inside q (record { lo = lo; hi = lo + size - 1 })
              ⊎ Disjoint (record { lo = lo; hi = lo + size - 1 }) q)
            qs
    each [] h ends = tt
    each (q ∷ qs) h ends =
        (EndsOutside-Disjoint (record { lo = lo; hi = lo + size - 1 }) q h ends.0, each qs h ends.1)

-- Around any payload, an aligned larger one in the heap that strictly contains it is accepted,
-- though the two share addresses.
pub add_range-enclosing :
    (b : Brk) (q : Range) (lo size : ℕ)
    → 0 < b.mem_brk
    → q.lo ≤ q.hi
    → 0 < size
    → size < sign_bit
    → IsPlaced b (record { lo = lo; hi = lo + size - 1 })
    → Inside q (record { lo = lo; hi = lo + size - 1 })
    → (add_range b (q ∷ []) lo size ≡ added (record { lo = lo; hi = lo + size - 1 } ∷ q ∷ []))
      × ¬ Disjoint (record { lo = lo; hi = lo + size - 1 }) q
add_range-enclosing b q lo size heap hq pos small placed inside = (
  (add_range_lem b (q ∷ []) lo size heap _).1 (refl, pos, small, placed, (ground arith, tt)),
  ground arith,
)

-- The first payload that starts at `lo` goes, and those before and behind it stay.
remove_range-first :
    (before after : List Range) (p : Range)
    → All (λ q. q.lo ≢ p.lo) before
    → remove_range (before ++ p ∷ after) p.lo ≡ before ++ after
unfolding remove_range
remove_range-first [] after p h = let self : (p.lo == p.lo) ≡ true = ground arith in rw (self) refl
remove_range-first (q ∷ before) after p h =
    let other : (q.lo == p.lo) ≡ false = ground (arith, h.0) in
    rw (other) (ap (λ ps. q ∷ ps) (remove_range-first before after p h.1))

-- Where `add_range` accepts a payload, and any payloads `newer` that start elsewhere come on the list
-- after it, removing it leaves `newer` and the old list, in this order. The heap has a break.
pub remove_range-add_range :
    (b : Brk) (newer ranges rs : List Range) (lo size : ℕ)
    → 0 < b.mem_brk
    → add_range b ranges lo size ≡ added rs
    → All (λ q. q.lo ≢ lo) newer
    → remove_range (newer ++ rs) lo ≡ newer ++ ranges
remove_range-add_range b newer ranges rs lo size heap e others =
    rw (((add_range_lem b ranges lo size heap rs).0 e).0)
      (remove_range-first newer ranges (record { lo = lo; hi = lo + size - 1 }) others)

pub remove_range-All {κ} :
    (P : Range → Type κ) (ps : List Range) (lo : ℕ) → All P ps → All P (remove_range ps lo)
unfolding remove_range
remove_range-All P [] lo h = tt
remove_range-All P (p ∷ ps) lo h = elim (Bool-cases (p.lo == lo)) [
  | inl here ↦ rw here h.1
  | inr there ↦ rw there (h.0, remove_range-All P ps lo h.1)
]
