-- ===== src/Malloc/Invariant/Found.antt =====
-- `find_fit` of mm.c in a heap with the invariant: it ends, and what it returns.
use mathlib.Core.Path.{subst}
use computer_systems_labs.Base.{
  ℕ, suc, ◌+◌, ◌-◌, ◌*◌, ◌≤◌, ◌<◌, ◌≡◌, ◌≢◌, ◌⊎◌, inl, inr, refl, sym, ap, ◌∙◌, arith, true, false,
  not, Bool-cases, ◌==◌, ◌&&◌, leb, some, List, [], ◌∷◌, ◌++◌, length,
}
use computer_systems_labs.Malloc.Bytes.{Bytes}
use computer_systems_labs.Malloc.Memlib.{mem_heapsize}
use computer_systems_labs.Malloc.Heap.{Heap}
use computer_systems_labs.Malloc.Tags.{get_size, get_alloc, hdrp}
use computer_systems_labs.Malloc.FreeList.{find_fit_loop}
use computer_systems_labs.Malloc.FreeList.Links.{Distinct}
use computer_systems_labs.Malloc.FreeList.Splice.{Distinct-remove}
use computer_systems_labs.Malloc.FreeList.Search.{first_fit, find_fit_loop-eq-first_fit}
use computer_systems_labs.Malloc.Alloc.{find_fit}
use computer_systems_labs.Malloc.Blocks.{Block, block, Backward, free_backward}
use computer_systems_labs.Malloc.Blocks.Places.{Backward-le}
use computer_systems_labs.Malloc.Blocks.Links.{has, split_at, has-remove, All-of_has}
use computer_systems_labs.Malloc.Invariant.{IsRow, IsListed, first, prologue}
use computer_systems_labs.Malloc.Invariant.Members.{free_backward-below}
use computer_systems_labs.Malloc.Invariant.Edges.{tag_read, here-size}
use computer_systems_labs.Malloc.Invariant.Views.{IsViewed, view_at}

length-middle : (x : ℕ) (xs ys : List ℕ) → length (xs ++ x ∷ ys) ≡ suc (length (xs ++ ys))
length-middle x [] ys = refl
length-middle x (z ∷ xs) ys = ap suc (length-middle x xs ys)

-- A list without repetition of the free blocks is not longer than the row.
length-free :
    (m : Bytes) (s t p : ℕ) (ls : List Block) (xs : List ℕ)
    → Backward m s ls p
    → Distinct t xs
    → ((y : ℕ) → has y xs ≡ free_backward p ls y)
    → length xs ≤ length ls
length-free m s t p [] [] back d members = omega arith
length-free m s t p [] (x ∷ xs) back d members = ground (arith, members x)
length-free m s t p (b ∷ ls) xs back d members = elim (Bool-cases b.used) [
  | inl used ↦
      let rest =
        length-free m s t (p - b.size) ls xs back.2 d (λ y. ground (arith, members y, used)) in
      ground (arith, rest)
  | inr free ↦
      let x = p - b.size in
      let (before, after, cut) = split_at x xs (ground (arith, members x, free)) in
      let d1 = subst (Distinct t) cut d in
      let low = free_backward-below m s x x ls back.2 (omega arith) in
      let fewer : (y : ℕ) → has y (before ++ after) ≡ free_backward x ls y = λ y.
        let kept =
          subst (λ l. has y (before ++ after) ≡ (not (y == x) && has y l)) (sym cut)
            (has-remove t x y before after d1) in
        elim (Bool-cases (y == x)) [
          | inl same ↦
              let here : y ≡ x = ground (arith, same) in
              ground (arith, kept, same, low, ap (λ z. free_backward x ls z) here)
          | inr other ↦ ground (arith, kept, members y, other, free)
        ] in
      let rest =
        length-free m s t x ls (before ++ after) back.2 (Distinct-remove t x before after d1)
          fewer in
      let count = ap length cut ∙ length-middle x before after in ground (arith, rest, count)
]

length-row : (m : Bytes) (s p : ℕ) (ls : List Block) → Backward m s ls p → s + 24 * length ls ≤ p
length-row m s p [] back = ground (arith, back)
length-row m s p (b ∷ ls) back =
    let least = back.1.least in ground (arith, least, back.0, length-row m s (p - b.size) ls back.2)

first_fit-has :
    (m : Bytes) (asize : ℕ) (xs : List ℕ)
    → (first_fit m asize xs ≡ 0)
      ⊎ (has (first_fit m asize xs) xs ≡ true) × (asize ≤ get_size (hdrp (first_fit m asize xs)) m)
unfolding first_fit
first_fit-has m asize [] = inl refl
first_fit-has m asize (x ∷ xs) = elim (Bool-cases (leb asize (get_size (hdrp x) m))) [
  | inl fits ↦ inr (rw (fits) (ground arith, ground (arith, fits)))
  | inr small ↦
      let same : first_fit m asize (x ∷ xs) ≡ first_fit m asize xs = rw (small) refl in
      elim (first_fit-has m asize xs) [
        | inl none ↦ inl (same ∙ none)
        | inr (there, fits) ↦ inr (
            subst (λ z. (has z (x ∷ xs) ≡ true) × (asize ≤ get_size (hdrp z) m)) (sym same)
              (ground (arith, there), fits))
      ]
]

module _ (h : Heap) (ls : List Block) (xs : List ℕ) (row : IsRow h ls h.brk.mem_brk [])
    (listed : IsListed h ls h.brk.mem_brk [] xs) where
  abbrev e : ℕ
  e = h.brk.mem_brk

  in_row : (y : ℕ) → has y xs ≡ free_backward e ls y
  in_row y = ground (arith, listed.members y)

  seen :
      (y : ℕ)
      → has y xs ≡ true
      → (ms : List Block) × (k : ℕ) × (ss : List Block) × IsViewed h ms y (block k false ∷ ss)
  seen y here = view_at h ls e [] y (row, xs, listed) (sym (in_row y) ∙ here)

  free_header : (y : ℕ) → has y xs ≡ true → get_alloc (hdrp y) h.bytes ≡ 0
  free_header y here =
      let (ms, k, ss, viewed) = seen y here in
      let b = viewed.0.tiles.front.0 in (tag_read (y - 4) k false h.bytes b.sized b.header).1

  prologue_used : get_alloc (hdrp (prologue h)) h.bytes ≡ 1
  prologue_used =
      let at : h.heap_listp + 8 - 4 ≡ h.heap_listp + 4 = omega arith in
      rw (at) (
        (tag_read (h.heap_listp + 4) 24 true h.bytes (record { fits = omega arith; eights = refl })
          row.edges.prologue_header).1)

  rounds : length xs < mem_heapsize h.brk + 1
  unfolding mem_heapsize
  rounds =
      let back = row.tiles.back in
      let few =
        length-free h.bytes (first h) (prologue h) e ls xs back listed.chain.distinct in_row in
      let room = length-row h.bytes (first h) e ls back in
      let based = row.seat.based in omega (few, room, based, arith)

  -- The search ends: it returns NULL, or a free block of the row that is large enough.
  pub find_fit-seen :
      (asize : ℕ)
      → (find_fit asize h ≡ some 0)
        ⊎ (y : ℕ) × (find_fit asize h ≡ some y)
          × (y ≢ 0)
          × (ms : List Block) × (k : ℕ) × (ss : List Block) × IsViewed h ms y (block k false ∷ ss)
          × (asize ≤ k)
  unfolding find_fit
  find_fit-seen asize =
      let search =
        find_fit_loop-eq-first_fit (mem_heapsize h.brk + 1) asize (prologue h) 0 h xs
          listed.chain.links (All-of_has (λ y. get_alloc (hdrp y) h.bytes ≡ 0) xs free_header)
          prologue_used rounds in
      let found : find_fit_loop (mem_heapsize h.brk + 1) asize h.free_listp h
          ≡ some (first_fit h.bytes asize xs) =
        subst
          (λ b.
            find_fit_loop (mem_heapsize h.brk + 1) asize b h ≡ some (first_fit h.bytes asize xs))
          (sym listed.chain.start) search in
      elim (first_fit-has h.bytes asize xs) [
        | inl none ↦ inl (found ∙ ap some none)
        | inr (here, fits) ↦
            let y = first_fit h.bytes asize xs in
            let (ms, k, ss, viewed) = seen y here in
            let size = here-size h ms y k false ss viewed.0 in
            let far = Backward-le h.bytes (first h) y ms viewed.0.tiles.back in
            inr (y, found, ground (arith, far), ms, k, ss, viewed, ground (arith, fits, size))
      ]
