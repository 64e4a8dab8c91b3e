-- ===== src/Malloc/Runs.antt =====
-- The heaps that the calls of mm.c lead to, with what their user stores in between.
use mathlib.Core.Path.{subst}
use computer_systems_labs.Base.{
  ℕ, ◌+◌, ◌-◌, ◌%◌, ◌^◌, ◌≤◌, ◌<◌, ◌≡◌, inl, inr, refl, sym, ap, ◌∙◌, true, false, Option, none,
  some, List, [], ◌∷◌,
}
use computer_systems_labs.Malloc.Bytes.{Bytes}
use computer_systems_labs.Malloc.Memlib.Laws.{IsBrk, mem_reset_brk-IsBrk}
use computer_systems_labs.Malloc.Memlib.{mem_reset_brk}
use computer_systems_labs.Malloc.Heap.{Heap}
use computer_systems_labs.Malloc.Tags.{get}
use computer_systems_labs.Malloc.Alloc.{mm_init, mm_malloc, mm_free}
use computer_systems_labs.Malloc.Blocks.{Block, block, Tiles}
use computer_systems_labs.Malloc.Invariant.{first}
use computer_systems_labs.Malloc.Invariant.Merge.{beyond, free_size}
use computer_systems_labs.Malloc.Invariant.Release.{mm_free-Coalesced}
use computer_systems_labs.Malloc.Invariant.Views.{IsViewed, view_end}
use computer_systems_labs.Malloc.Invariant.Walk.{view_from}
use computer_systems_labs.Malloc.Invariant.Payload.{Within, written-Viewed}
use computer_systems_labs.Malloc.Invariant.Init.{mm_init_lem}
use computer_systems_labs.Malloc.Invariant.Request.{Given, mm_malloc-Given}

-- What `mem_init` leaves: an empty heap at an address that is a multiple of 8.
pub record IsFresh (h : Heap) : Type 0 where
  pub brk_ok : IsBrk h.brk
  pub empty : h.brk.mem_brk ≡ h.brk.mem_start_brk
  pub aligned : h.brk.mem_brk % 8 ≡ 0
  pub limit : h.brk.mem_max_addr < 2 ^ 63

-- The word that `coalesce` first reads as a footer and `mm_init` does not write. `malloc` does not
-- promise this of the storage.
abbrev pub IsZeroed : Heap → Type 0
IsZeroed h = get (h.brk.mem_brk + 40) h.bytes ≡ 0

-- The tags lead to a block in use at `bp`, with `ls` in front and `rs` behind it.
abbrev pub InUse : Heap → List Block → ℕ → ℕ → List Block → Type 0
InUse h ls bp k rs = Tiles h.bytes (first h) h.brk.mem_brk ls bp (block k true ∷ rs)

-- The heap behind `mem_reset_brk`, with the bytes that were stored.
abbrev pub reset : Heap → Heap
reset h = record h { brk = mem_reset_brk h.brk }

-- The heaps that are reached from a fresh one.
pub data Reached (start : Heap) : Heap → Type 0 where
  initialised : (g : Heap) → mm_init start ≡ (true, g) → Reached start g
  restarted : (h g : Heap) → Reached start h → mm_init (reset h) ≡ (true, g) → Reached start g
  allocated :
      (h : Heap) (size bp : ℕ) (g : Heap)
      → Reached start h
      → 0 < size
      → size ≤ 0x7fff_fff0
      → mm_malloc size h ≡ some (bp, g)
      → Reached start g
  freed :
      (h : Heap) (ls : List Block) (bp k : ℕ) (rs : List Block)
      → Reached start h
      → InUse h ls bp k rs
      → Reached start (mm_free bp h)
  stored :
      (h : Heap) (ls : List Block) (bp k : ℕ) (rs : List Block) (m : Bytes)
      → Reached start h
      → InUse h ls bp k rs
      → Within bp k h.bytes m
      → Reached start (record h { bytes = m })

abbrev pub Invariant : Heap → Type 0
Invariant h = (ls : List Block) × IsViewed h ls h.brk.mem_brk []

Given-Invariant : (g : Heap) (bp a : ℕ) → Given g bp a → Invariant g
Given-Invariant g bp a (ls, k, rs, viewed, room) = view_end g ls bp (block k true ∷ rs) viewed

abbrev heap_in : Heap → Option (ℕ × Heap) → Heap
heap_in h none = h
heap_in h (some (bp, g)) = g

-- A run that starts again finds the empty heap, and the word that nobody has written.
reset-IsFresh : (h : Heap) (ls : List Block) → IsViewed h ls h.brk.mem_brk [] → IsFresh (reset h)
unfolding mem_reset_brk
reset-IsFresh h ls viewed =
    let seat = viewed.0.seat in
    record {
      brk_ok = mem_reset_brk-IsBrk seat.brk_ok;
      empty = refl;
      aligned = subst (λ q. q % 8 ≡ 0) seat.based seat.aligned;
      limit = seat.limit;
    }

reset-IsZeroed : (h : Heap) (ls : List Block) → IsViewed h ls h.brk.mem_brk [] → IsZeroed (reset h)
unfolding mem_reset_brk
reset-IsZeroed h ls viewed =
    subst (λ q. get (q + 40) h.bytes ≡ 0) viewed.0.seat.based viewed.0.edges.guard

made-Invariant : (h g : Heap) → IsFresh h → IsZeroed h → mm_init h ≡ (true, g) → Invariant g
made-Invariant h g fresh zeroed made =
    let (g1, e, viewed) = mm_init_lem h fresh.brk_ok fresh.empty fresh.aligned fresh.limit zeroed in
    subst Invariant (ap (λ r. r.1) (sym e ∙ made))
      (view_end g1 [] (h.brk.mem_brk + 48) (block 24 false ∷ []) viewed)

-- In every heap that is reached from an empty one at a multiple of 8 below 2 ^ 63, whose word of 4 bytes
-- at the offset 40 is zero, which malloc does not promise, by `mm_init`, by requests of 1 to 2 ^ 31 - 16
-- bytes, by freeing blocks in use, by stores into the payloads of blocks in use and by `mem_reset_brk`
-- with `mm_init` behind it, blocks with equal tags fill the heap from edge to edge, and the free list
-- holds the free blocks and no others.
pub Reached-Invariant :
    (start h : Heap) → IsFresh start → IsZeroed start → Reached start h → Invariant h
Reached-Invariant start h fresh zeroed (initialised g made) =
    made-Invariant start g fresh zeroed made
Reached-Invariant start h fresh zeroed (restarted h1 g before made) =
    let (ls, viewed) = Reached-Invariant start h1 fresh zeroed before in
    made-Invariant (reset h1) g (reset-IsFresh h1 ls viewed) (reset-IsZeroed h1 ls viewed) made
Reached-Invariant start h fresh zeroed (allocated h1 size bp g before pos small made) =
    let (ls, viewed) = Reached-Invariant start h1 fresh zeroed before in
    elim (mm_malloc-Given size h1 ls pos small viewed) [
      | inl refused ↦ subst Invariant (ap (heap_in h1) (sym refused ∙ made)) (ls, viewed)
      | inr (p, g1, e, there, given) ↦
          subst Invariant (ap (heap_in h1) (sym e ∙ made)) (Given-Invariant g1 p (size + 8) given)
    ]
Reached-Invariant start h fresh zeroed (freed h1 ls bp k rs before used) =
    let (ms, viewed) = Reached-Invariant start h1 fresh zeroed before in
    let (row, xs, listed) =
      view_from h1 ms ls h1.brk.mem_brk bp [] (block k true ∷ rs) viewed used in
    let done = mm_free-Coalesced h1 ls bp k rs xs row listed in
    view_end (mm_free bp h1) (beyond ls) (bp - free_size ls)
      (block (k + (free_size ls + free_size rs)) false ∷ beyond rs)
      (done.0, ((bp - free_size ls) ∷ done.1), done.2)
Reached-Invariant start h fresh zeroed (stored h1 ls bp k rs m before used within) =
    let (ms, viewed) = Reached-Invariant start h1 fresh zeroed before in
    let seen = view_from h1 ms ls h1.brk.mem_brk bp [] (block k true ∷ rs) viewed used in
    view_end (record h1 { bytes = m }) ls bp (block k true ∷ rs)
      (written-Viewed h1 ls bp k rs m seen within)
