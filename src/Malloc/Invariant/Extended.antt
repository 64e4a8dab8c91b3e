-- ===== src/Malloc/Invariant/Extended.antt =====
-- `extend_heap` of mm.c, with the storage that is left and without.
use computer_systems_labs.Base.{ℕ, ◌+◌, ◌-◌, ◌^◌, ◌<◌, ◌≡◌, ◌⊎◌, inl, inr, ap, some, List, []}
use computer_systems_labs.Malloc.Heap.{Heap}
use computer_systems_labs.Malloc.Alloc.{extend_size, extend_heap}
use computer_systems_labs.Malloc.Memlib.{mem_sbrk}
use computer_systems_labs.Malloc.Memlib.Laws.{IsBrk}
use computer_systems_labs.Malloc.Alloc.Sizes.{extend_size_lem}
use computer_systems_labs.Malloc.Blocks.{Block}
use computer_systems_labs.Malloc.Invariant.{IsRow, IsListed}
use computer_systems_labs.Malloc.Invariant.Merge.{free_size}
use computer_systems_labs.Malloc.Invariant.Release.{Coalesced, coalesce-Coalesced}
use computer_systems_labs.Malloc.Invariant.Extend.{
  mem_sbrk-cases, extended, extended-IsRow, extended-IsPending, stores,
}

-- Where the storage has room.
pub extend_heap-granted :
    (words : ℕ) (h : Heap) (ls : List Block) (xs : List ℕ)
    → IsRow h ls h.brk.mem_brk []
    → IsListed h ls h.brk.mem_brk [] xs
    → words < 2 ^ 30 - 1
    → (mem_sbrk (extend_size words) h.brk
        ≡ (some h.brk.mem_brk, record h.brk { mem_brk = h.brk.mem_brk + extend_size words }))
    → IsBrk (record h.brk { mem_brk = h.brk.mem_brk + extend_size words })
    → ((extend_heap words h).0 ≡ h.brk.mem_brk - free_size ls)
      × Coalesced (extend_heap words h).1 ls h.brk.mem_brk (extend_size words) []
unfolding extend_heap
extend_heap-granted words h ls xs row listed few granted moved =
    let n = extend_size words in
    let size = extend_size_lem words few in
    let brk_of = ap (λ r. r.1) granted in
    let g = extended h ls n row size.0 size.1 moved in
    let (at, done) =
      coalesce-Coalesced g ls h.brk.mem_brk n [] xs (extended-IsRow h ls n row size.0 size.1 moved)
        (extended-IsPending h ls n row size.0 size.1 moved xs listed) in
    rw (granted, brk_of, stores h ls n row size.0 size.1 moved, extend_heap) (at, done)

-- In a heap that blocks with equal tags fill from edge to edge, and whose free list holds the free
-- blocks and no others, `extend_heap` of fewer than 2 ^ 30 - 1 words either returns NULL and changes
-- nothing, or it returns the address of a free block at the end of the heap, which has the bytes added
-- and those of the last block where that was free, and keeps both.
pub extend_heap-Coalesced :
    (words : ℕ) (h : Heap) (ls : List Block) (xs : List ℕ)
    → IsRow h ls h.brk.mem_brk []
    → IsListed h ls h.brk.mem_brk [] xs
    → words < 2 ^ 30 - 1
    → (extend_heap words h ≡ (0, h))
      ⊎ ((extend_heap words h).0 ≡ h.brk.mem_brk - free_size ls)
        × Coalesced (extend_heap words h).1 ls h.brk.mem_brk (extend_size words) []
unfolding extend_heap
extend_heap-Coalesced words h ls xs row listed few =
    elim (mem_sbrk-cases (extend_size words) h.brk row.seat.brk_ok) [
      | inl refused ↦
          inl (
            rw (refused, extend_heap) (ap (λ b. (0, record h { brk = b })) (ap (λ r. r.1) refused)))
      | inr (granted, moved) ↦ inr (extend_heap-granted words h ls xs row listed few granted moved)
    ]
