-- ===== src/Malloc/Invariant/Request.antt =====
-- `mm_malloc` of mm.c in a heap with the invariant.
use mathlib.Core.Path.{subst}
use computer_systems_labs.Base.{
  ℕ, ◌+◌, ◌-◌, ◌/◌, ◌^◌, ◌≤◌, ◌<◌, ◌≡◌, ◌≢◌, ◌⊎◌, inl, inr, refl, sym, ap, ◌∙◌, arith, true, false,
  ◌==◌, some, List, [], ◌∷◌, if◌then◌else◌,
}
use computer_systems_labs.Malloc.Heap.{Heap}
use computer_systems_labs.Malloc.Tags.{max_int, chunksize, wsize}
use computer_systems_labs.Malloc.Tags.Laws.{IsSize}
use computer_systems_labs.Malloc.Alloc.{
  place, extend_size, extend_heap, find_fit, adjusted_size, malloc_extending, mm_malloc,
}
use computer_systems_labs.Malloc.Alloc.Sizes.{adjusted_size_lem, extend_size-adjusted_size}
use computer_systems_labs.Malloc.Blocks.{Block, block}
use computer_systems_labs.Malloc.Blocks.Places.{Backward-le}
use computer_systems_labs.Malloc.Invariant.{first}
use computer_systems_labs.Malloc.Invariant.Merge.{free_size, beyond}
use computer_systems_labs.Malloc.Invariant.Placed.{Placed, place-Placed}
use computer_systems_labs.Malloc.Invariant.Extended.{extend_heap-Coalesced}
use computer_systems_labs.Malloc.Invariant.Views.{IsViewed, view_prev}
use computer_systems_labs.Malloc.Invariant.Found.{find_fit-seen}

-- A block in use at `p` with at least `a` bytes, in a heap with the invariant.
abbrev pub Given : Heap → ℕ → ℕ → Type 0
Given h p a =
    (ms : List Block) × (k : ℕ) × (ss : List Block) × IsViewed h ms p (block k true ∷ ss) × (a ≤ k)

Placed-Given :
    (g : Heap) (ls : List Block) (p a c : ℕ) (rs : List Block)
    → a ≤ c
    → Placed g ls p a c rs
    → Given g p a
Placed-Given g ls p a c rs room (inl (small, row, ys, listed)) =
    (ls, c, rs, (row, ys, listed), room)
Placed-Given g ls p a c rs room (inr (large, (row, ys, listed))) =
    let size = c - a + (0 + free_size rs) in
    let here : p + a - 0 - a ≡ p = omega arith in
    let viewed =
      view_prev g ls (p + a - 0) (block a true) (block size false ∷ beyond rs)
        (row, ((p + a - 0) ∷ ys), listed) in
    (
      ls,
      a,
      block size false ∷ beyond rs,
      subst (λ q. IsViewed g ls q (block a true ∷ block size false ∷ beyond rs)) here viewed,
      omega arith,
    )

place-Given :
    (h : Heap) (ls : List Block) (p a c : ℕ) (rs : List Block)
    → IsViewed h ls p (block c false ∷ rs)
    → IsSize a
    → 24 ≤ a
    → a ≤ c
    → Given (place p a h) p a
place-Given h ls p a c rs (row, xs, listed) sized least room =
    Placed-Given (place p a h) ls p a c rs room
      (place-Placed h ls p a c rs xs row listed sized least room)

-- What `malloc_extending` makes of the result of `extend_heap`.
abbrev placed_in : ℕ × Heap → ℕ → ℕ × Heap
placed_in r a = if r.0 == 0 then (0, r.1) else (r.0, place r.0 a r.1)

placed_in-there :
    (r : ℕ × Heap) (a : ℕ) → (r.0 == 0) ≡ false → placed_in r a ≡ (r.0, place r.0 a r.1)
placed_in-there r a there = rw (there) refl

module _ (size : ℕ) (h : Heap) (ls : List Block) (pos : 0 < size) (small : size ≤ 0x7fff_fff0)
    (viewed : IsViewed h ls h.brk.mem_brk []) where
  abbrev a : ℕ
  a = adjusted_size size

  abbrev grown : ℕ × Heap
  grown = extend_heap (max_int a chunksize / wsize) h

  few : max_int a chunksize / wsize < 2 ^ 30 - 1
  unfolding max_int
  few = let bounds = adjusted_size_lem size pos small in ground (arith, bounds.4, bounds.1)

  -- Where no free block fits, the heap is extended, or the storage is used up.
  malloc_extending-Given :
      (malloc_extending a h ≡ (0, h))
      ⊎ (bp : ℕ) × (g : Heap) × (malloc_extending a h ≡ (bp, g)) × (bp ≢ 0) × Given g bp a
  unfolding malloc_extending
  malloc_extending-Given =
      let (row, xs, listed) = viewed in
      let (sized, least, holds, waste, signed) = adjusted_size_lem size pos small in
      let made : malloc_extending a h ≡ placed_in grown a = refl in
      elim (extend_heap-Coalesced (max_int a chunksize / wsize) h ls xs row listed few) [
        | inl refused ↦ inl (made ∙ ap (λ r. placed_in r a) refused)
        | inr (at, done) ↦
            let bytes = extend_size-adjusted_size size pos small in
            let above =
              Backward-le grown.1.bytes (first grown.1) (h.brk.mem_brk - free_size ls) (beyond ls)
                done.0.tiles.back in
            let there : grown.0 ≢ 0 = ground (arith, at, above) in
            let no_null : (grown.0 == 0) ≡ false = ground (arith, there) in
            let room : a ≤ extend_size (max_int a chunksize / wsize) + (free_size ls + 0) =
              omega (bytes, arith) in
            let given =
              place-Given grown.1 (beyond ls) (h.brk.mem_brk - free_size ls) a
                (extend_size (max_int a chunksize / wsize) + (free_size ls + 0)) []
                (done.0, ((h.brk.mem_brk - free_size ls) ∷ done.1), done.2) sized least room in
            inr (
              grown.0,
              place grown.0 a grown.1,
              made ∙ placed_in-there grown a no_null,
              there,
              subst (λ q. Given (place q a grown.1) q a) (sym at) given,
            )
      ]

  found : ℕ → ℕ × Heap
  found bp = if bp == 0 then malloc_extending a h else (bp, place bp a h)

  some_size : (size == 0) ≡ false
  some_size = ground (arith, pos)

  mm_malloc-found : (bp : ℕ) → find_fit a h ≡ some bp → mm_malloc size h ≡ some (found bp)
  unfolding mm_malloc found
  mm_malloc-found bp fit = rw (some_size, fit) refl

  found-none : found 0 ≡ malloc_extending a h
  unfolding found
  found-none = refl

  found-some : (bp : ℕ) → bp ≢ 0 → found bp ≡ (bp, place bp a h)
  unfolding found
  found-some bp there = let test : (bp == 0) ≡ false = ground (arith, there) in rw (test) refl

-- In a heap that blocks with equal tags fill from edge to edge, and whose free list holds the free
-- blocks and no others, `mm_malloc` of 1 to 2 ^ 31 - 16 bytes ends. Either it returns NULL and leaves
-- the heap as it was, or it returns the payload of a block in use, with room for the bytes and for the
-- two tags, and the heap that it leaves is filled by blocks and has its free list in the same way.
pub mm_malloc-Given :
    (size : ℕ) (h : Heap) (ls : List Block)
    → 0 < size
    → size ≤ 0x7fff_fff0
    → IsViewed h ls h.brk.mem_brk []
    → (mm_malloc size h ≡ some (0, h))
      ⊎ (bp : ℕ) × (g : Heap) × (mm_malloc size h ≡ some (bp, g)) × (bp ≢ 0) × Given g bp (size + 8)
mm_malloc-Given size h ls pos small viewed =
    let (row, xs, listed) = viewed in
    let (sized, least, holds, waste, signed) = adjusted_size_lem size pos small in
    let asize = adjusted_size size in
    let large_enough : (g : Heap) (bp : ℕ) → Given g bp asize → Given g bp (size + 8) =
      λ g bp (ms, k, ss, seen, room). (ms, k, ss, seen, omega (holds, room, arith)) in
    let returns = mm_malloc-found size h ls pos small viewed in
    elim (find_fit-seen h ls xs row listed asize) [
      | inl none_fits ↦
          let extending = returns 0 none_fits ∙ ap some (found-none size h ls pos small viewed) in
          elim (malloc_extending-Given size h ls pos small viewed) [
            | inl refused ↦ inl (extending ∙ ap some refused)
            | inr (bp, g, made, there, given) ↦
                inr (bp, g, extending ∙ ap some made, there, large_enough g bp given)
          ]
      | inr (bp, fit, there, ms, k, ss, seen, fits) ↦ inr (
        bp,
        place bp asize h,
        returns bp fit ∙ ap some (found-some size h ls pos small viewed bp there),
        there,
        large_enough (place bp asize h) bp (place-Given h ms bp asize k ss seen sized least fits),
      )
    ]
