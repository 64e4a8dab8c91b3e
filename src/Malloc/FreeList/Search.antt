-- ===== src/Malloc/FreeList/Search.antt =====
-- `find_fit` returns the first block of the free list that is large enough, and ends.
use computer_systems_labs.Base.{
  ℕ, zero, suc, ◌≤◌, ◌<◌, ◌≡◌, ◌⊎◌, inl, refl, arith, leb, if◌then◌else◌, some, List, [], ◌∷◌, All,
  length,
}
use computer_systems_labs.Malloc.Bytes.{Bytes}
use computer_systems_labs.Malloc.Heap.{Heap}
use computer_systems_labs.Malloc.Tags.{hdrp, get_size, get_alloc}
use computer_systems_labs.Malloc.FreeList.{find_fit_loop}
use computer_systems_labs.Malloc.FreeList.Links.{head_or, Links}

-- The first of the blocks `xs` that has at least `asize` bytes, and 0 where there is none.
unfoldable pub first_fit : Bytes → ℕ → List ℕ → ℕ
first_fit m asize [] = 0
first_fit m asize (x ∷ xs) = if leb asize (get_size (hdrp x) m) then x else first_fit m asize xs

-- On a linked list `xs` of blocks whose headers are free, which ends at a block in use, the loop
-- of `find_fit` ends within one round more than the list has blocks, and returns the first that
-- is large enough, or NULL where none is.
pub find_fit_loop-eq-first_fit :
    (fuel asize t before : ℕ) (h : Heap) (xs : List ℕ)
    → Links h.bytes t before xs
    → All (λ x. get_alloc (hdrp x) h.bytes ≡ 0) xs
    → get_alloc (hdrp t) h.bytes ≡ 1
    → length xs < fuel
    → find_fit_loop fuel asize (head_or t xs) h ≡ some (first_fit h.bytes asize xs)
unfolding find_fit_loop first_fit
find_fit_loop-eq-first_fit zero asize t before h xs links free stop enough = absurd (omega arith)
find_fit_loop-eq-first_fit (suc fuel) asize t before h [] links free stop enough = rw stop refl
find_fit_loop-eq-first_fit (suc fuel) asize t before h (x ∷ xs) links free stop enough =
    rw (free.0, links.1)
      (ground
        (arith, find_fit_loop-eq-first_fit fuel asize t x h xs links.2 free.1 stop (omega arith)))

-- What is found is a block of the list with room for the request; NULL means that none has.
pub first_fit_lem :
    (m : Bytes) (asize : ℕ) (xs : List ℕ)
    → (first_fit m asize xs ≡ 0) × All (λ x. (x ≡ 0) ⊎ (get_size (hdrp x) m < asize)) xs
      ⊎ asize ≤ get_size (hdrp (first_fit m asize xs)) m
unfolding first_fit
first_fit_lem m asize [] = inl (refl, tt)
first_fit_lem m asize (x ∷ xs) = ground (arith, first_fit_lem m asize xs)
