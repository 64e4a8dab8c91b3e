-- ===== src/Malloc/Invariant/Merge.antt =====
-- `coalesce` of mm.c: a free neighbour comes off the free list, before the blocks are joined.
use computer_systems_labs.Base.{
  ℕ, ◌+◌, ◌-◌, ◌≡◌, inl, inr, refl, arith, Bool, true, false, Bool-cases, ◌==◌, ◌||◌, List, [], ◌∷◌,
  if◌then◌else◌,
}
use computer_systems_labs.Malloc.Bytes.{Bytes}
use computer_systems_labs.Malloc.Heap.{Heap}
use computer_systems_labs.Malloc.FreeList.{remove_block}
use computer_systems_labs.Malloc.FreeList.Operations.{IsFreeList}
use computer_systems_labs.Malloc.Blocks.{Block, block, Node, free_forward, free_backward}
use computer_systems_labs.Malloc.Blocks.Links.{has}
use computer_systems_labs.Malloc.Invariant.{IsRow, first, prologue}
use computer_systems_labs.Malloc.Invariant.Members.{free_backward-below, free_forward-above}
use computer_systems_labs.Malloc.Invariant.Links.{remove_block-IsRow, IsFreeList-over}
use computer_systems_labs.Malloc.Invariant.Hole.{
  IsPending, free_backward-AtBackward, free_forward-AtForward,
}

-- The bytes of the nearest block that is free, and the blocks behind it.
abbrev pub free_size : List Block → ℕ
free_size [] = 0
free_size (b ∷ bs) = if b.used then 0 else b.size

abbrev pub beyond : List Block → List Block
beyond [] = []
beyond (b ∷ bs) = if b.used then b ∷ bs else bs

-- A free list over the nodes of the blocks that it has.
pub IsPending-over :
    (h : Heap) (ls ms : List Block) (p n q k : ℕ) (rs ss : List Block) (xs : List ℕ)
    → IsFreeList (Node (prologue h) ms q (block k false ∷ ss)) (prologue h) h xs
    → ((y : ℕ) → has y xs ≡ (free_backward p ls y || free_forward (p + n) rs y))
    → IsPending h ls p n rs xs
IsPending-over h ls ms p n q k rs ss xs chain members = record {
  chain =
      IsFreeList-over (Node (prologue h) ms q (block k false ∷ ss))
        (Node (prologue h) ls p (block n false ∷ rs)) (prologue h) h xs (inl refl)
        (λ y listed. elim (Bool-cases (free_backward p ls y)) [
          | inl before ↦ inr (inl (free_backward-AtBackward p y ls before))
          | inr not_before ↦ inr (
              inr (
                inr (
                  free_forward-AtForward (p + n) y rs
                    (ground (arith, members y, listed, not_before)))))
        ])
        chain;
  members = members;
}

-- The block behind `p` is taken off the list, where `back` says what the list has before `p`.
pub drop_next :
    (h : Heap) (ls : List Block) (p n k : ℕ) (rs : List Block) (xs : List ℕ) (back : ℕ → Bool)
    → IsRow h ls p (block n false ∷ block k false ∷ rs)
    → IsFreeList (Node (prologue h) ls p (block n false ∷ block k false ∷ rs)) (prologue h) h xs
    → ((y : ℕ) → has y xs ≡ (back y || free_forward (p + n) (block k false ∷ rs) y))
    → back (p + n) ≡ false
    → (m : Bytes) × (f : ℕ) × (ys : List ℕ) × (remove_block (p + n) h
        ≡ record h { bytes = m; free_listp = f })
      × IsRow (record h { bytes = m; free_listp = f }) ls p (block n false ∷ block k false ∷ rs)
      × IsFreeList
          (Node (prologue h) ls p (block n false ∷ block k false ∷ rs))
          (prologue h)
          (record h { bytes = m; free_listp = f })
          ys
      × ((y : ℕ) → has y ys ≡ (back y || free_forward (p + n + k) rs y))
drop_next h ls p n k rs xs back row chain members low =
    let next = row.tiles.front.1.0.least in
    let listed : has (p + n) xs ≡ true = ground (arith, members (p + n)) in
    let (m, f, ys, e, row1, chain1, members1) =
      remove_block-IsRow h ls p (block n false ∷ block k false ∷ rs) (p + n) xs row chain listed in
    let high =
      free_forward-above h.bytes (p + n + k) h.brk.mem_brk (p + n) rs row.tiles.front.1.1
        (omega (next, arith)) in
    (
      m,
      f,
      ys,
      e,
      row1,
      chain1,
      λ y. elim (Bool-cases (y == p + n)) [
        | inl same ↦
            let here : y ≡ p + n = ground (arith, same) in
            rw (here) (ground (arith, members1 (p + n), low, high))
        | inr other ↦ ground (arith, members1 y, members y, other)
      ],
    )

-- The block before `p` is taken off the list.
pub drop_prev :
    (h : Heap) (ls : List Block) (p n k : ℕ) (rs : List Block) (xs : List ℕ)
    → IsRow h (block k false ∷ ls) p (block n false ∷ rs)
    → IsPending h (block k false ∷ ls) p n rs xs
    → (m : Bytes) × (f : ℕ) × (ys : List ℕ) × (remove_block (p - k) h
        ≡ record h { bytes = m; free_listp = f })
      × IsRow (record h { bytes = m; free_listp = f }) (block k false ∷ ls) p (block n false ∷ rs)
      × IsFreeList
          (Node (prologue h) (block k false ∷ ls) p (block n false ∷ rs))
          (prologue h)
          (record h { bytes = m; free_listp = f })
          ys
      × ((y : ℕ) → has y ys ≡ (free_backward (p - k) ls y || free_forward (p + n) rs y))
drop_prev h ls p n k rs xs row pending =
    let x = p - k in
    let least = row.tiles.front.0.least in
    let listed : has x xs ≡ true = ground (arith, pending.members x) in
    let (m, f, ys, e, row1, chain1, members1) =
      remove_block-IsRow h (block k false ∷ ls) p (block n false ∷ rs) x xs row pending.chain
        listed in
    let low = free_backward-below h.bytes (first h) x x ls row.tiles.back.2 (omega arith) in
    let high =
      free_forward-above h.bytes (p + n) h.brk.mem_brk x rs row.tiles.front.1
        (omega (least, arith)) in
    (
      m,
      f,
      ys,
      e,
      row1,
      chain1,
      λ y. elim (Bool-cases (y == x)) [
        | inl same ↦
            let here : y ≡ x = ground (arith, same) in
            rw (here) (ground (arith, members1 x, low, high))
        | inr other ↦ ground (arith, members1 y, pending.members y, other)
      ],
    )
