-- ===== src/Malloc/Invariant/Cases.antt =====
-- `coalesce` of mm.c: the four cases, on a heap whose free block at `p` is not on the free list.

use mathlib.Core.Path.{subst}
use computer_systems_labs.Base.{ℕ, ◌+◌, ◌-◌, ◌≡◌, refl, arith, Bool, false, ◌||◌, List, ◌∷◌}
use computer_systems_labs.Malloc.Heap.{Heap}
use computer_systems_labs.Malloc.Alloc.{coalesce_next, coalesce_prev, coalesce_both}
use computer_systems_labs.Malloc.Blocks.{Block, block, Forward, free_forward, free_backward}
use computer_systems_labs.Malloc.Blocks.Places.{Forward-le, Backward-le}
use computer_systems_labs.Malloc.Blocks.Links.{has}
use computer_systems_labs.Malloc.Invariant.{IsRow, first}
use computer_systems_labs.Malloc.Invariant.Members.{free_backward-below}
use computer_systems_labs.Malloc.Invariant.Edges.{here-size, next-address, prev-address, tag_read}
use computer_systems_labs.Malloc.Invariant.Hole.{IsHole, IsPending, set_tags-IsPending}
use computer_systems_labs.Malloc.Invariant.Merge.{IsPending-over, drop_next, drop_prev}

module _ (h : Heap) (ls : List Block) (p : ℕ) (rs : List Block) where
  -- Blocks side by side as one hole.
  IsHole-next :
      (n k : ℕ) (u w : Bool) → IsRow h ls p (block n u ∷ block k w ∷ rs) → IsHole h ls p (n + k) rs
  IsHole-next n k u w row =
      let above = Backward-le h.bytes (first h) p ls row.tiles.back in
      let below = Forward-le h.bytes (p + n + k) h.brk.mem_brk rs row.tiles.front.1.1 in
      let here = row.tiles.front.0 in
      let next = row.tiles.front.1.0 in
      let there : p + n + k ≡ p + (n + k) = omega arith in
      record {
        seat = row.seat;
        edges = row.edges;
        back = row.tiles.back;
        front = subst (λ q. Forward h.bytes q rs h.brk.mem_brk) there row.tiles.front.1.1;
        sized = record {
          fits =
              omega
                (above, below, row.seat.brk_ok.below, row.seat.brk_ok.room, row.seat.based, arith);
          eights = omega (here.sized.eights, next.sized.eights, arith);
        };
        least = omega (here.least, arith);
      }

  IsHole-prev :
      (n k : ℕ) (u w : Bool)
      → IsRow h (block k w ∷ ls) p (block n u ∷ rs)
      → IsHole h ls (p - k) (n + k) rs
  IsHole-prev n k u w row =
      let back = row.tiles.back in
      let above = Backward-le h.bytes (first h) (p - k) ls back.2 in
      let below = Forward-le h.bytes (p + n) h.brk.mem_brk rs row.tiles.front.1 in
      let here = row.tiles.front.0 in
      let there : p + n ≡ p - k + (n + k) = omega (back.0, arith) in
      record {
        seat = row.seat;
        edges = row.edges;
        back = back.2;
        front = subst (λ q. Forward h.bytes q rs h.brk.mem_brk) there row.tiles.front.1;
        sized = record {
          fits = omega (
            back.0, above, below, row.seat.brk_ok.below, row.seat.brk_ok.room, row.seat.based,
            arith,
          );
          eights = omega (here.sized.eights, back.1.sized.eights, arith);
        };
        least = omega (here.least, arith);
      }

  IsHole-both :
      (n k j : ℕ) (u w v : Bool)
      → IsRow h (block k w ∷ ls) p (block n u ∷ block j v ∷ rs)
      → IsHole h ls (p - k) (n + (k + j)) rs
  IsHole-both n k j u w v row =
      let back = row.tiles.back in
      let above = Backward-le h.bytes (first h) (p - k) ls back.2 in
      let below = Forward-le h.bytes (p + n + j) h.brk.mem_brk rs row.tiles.front.1.1 in
      let here = row.tiles.front.0 in
      let next = row.tiles.front.1.0 in
      let there : p + n + j ≡ p - k + (n + (k + j)) = omega (back.0, arith) in
      record {
        seat = row.seat;
        edges = row.edges;
        back = back.2;
        front = subst (λ q. Forward h.bytes q rs h.brk.mem_brk) there row.tiles.front.1.1;
        sized = record {
          fits = omega (
            back.0, above, below, row.seat.brk_ok.below, row.seat.brk_ok.room, row.seat.based,
            arith,
          );
          eights = omega (here.sized.eights, back.1.sized.eights, next.sized.eights, arith);
        };
        least = omega (here.least, arith);
      }

-- The heap behind a merge: a free block of `n` bytes at `q` that is not listed.
abbrev pub Merged : ℕ × Heap → List Block → ℕ → ℕ → List Block → Type 0
Merged r ls q n rs =
    (g : Heap) × (ys : List ℕ) × (r ≡ (q, g))
    × IsRow g ls q (block n false ∷ rs)
    × IsPending g ls q n rs ys

pub coalesce_next-Merged :
    (h : Heap) (ls : List Block) (p n k : ℕ) (rs : List Block) (xs : List ℕ)
    → IsRow h ls p (block n false ∷ block k false ∷ rs)
    → IsPending h ls p n (block k false ∷ rs) xs
    → Merged (coalesce_next p h) ls p (n + k) rs
unfolding coalesce_next
coalesce_next-Merged h ls p n k rs xs row pending =
    let back = free_backward p ls in
    let low = free_backward-below h.bytes (first h) p (p + n) ls row.tiles.back (omega arith) in
    let (m, f, ys, e, row1, chain1, members1) =
      drop_next h ls p n k rs xs back row pending.chain pending.members low in
    let h1 = record h { bytes = m; free_listp = f } in
    let there : p + n + k ≡ p + (n + k) = omega arith in
    let members2 =
      subst (λ q. (y : ℕ) → has y ys ≡ (free_backward p ls y || free_forward q rs y)) there
        members1 in
    let pending1 : IsPending h1 ls p (n + k) rs ys =
      IsPending-over h1 ls ls p (n + k) p n rs (block k false ∷ rs) ys chain1 members2 in
    let (g, tags, row2, pending2) =
      set_tags-IsPending h1 ls p (n + k) rs (IsHole-next h1 ls p rs n k false false row1) ys
        pending1 in
    let next = row.tiles.front.1.0 in
    (
      g,
      ys,
      rw
          (
            next-address h ls p n false (block k false ∷ rs) row,
            here-size h ls p n false (block k false ∷ rs) row,
            (tag_read (p + n - 4) k false h.bytes next.sized next.header).0,
            e,
            tags,
          )
          refl,
      row2,
      pending2,
    )

pub coalesce_prev-Merged :
    (h : Heap) (ls : List Block) (p n k : ℕ) (rs : List Block) (xs : List ℕ)
    → IsRow h (block k false ∷ ls) p (block n false ∷ rs)
    → IsPending h (block k false ∷ ls) p n rs xs
    → Merged (coalesce_prev p h) ls (p - k) (n + k) rs
unfolding coalesce_prev
coalesce_prev-Merged h ls p n k rs xs row pending =
    let (m, f, ys, e, row1, chain1, members1) = drop_prev h ls p n k rs xs row pending in
    let h1 = record h { bytes = m; free_listp = f } in
    let prev = row.tiles.back in
    let there : p + n ≡ p - k + (n + k) = omega (prev.0, arith) in
    let members2 =
      subst (λ q. (y : ℕ) → has y ys ≡ (free_backward (p - k) ls y || free_forward q rs y)) there
        members1 in
    let pending1 : IsPending h1 ls (p - k) (n + k) rs ys =
      IsPending-over h1 ls (block k false ∷ ls) (p - k) (n + k) p n rs rs ys chain1 members2 in
    let (g, tags, row2, pending2) =
      set_tags-IsPending h1 ls (p - k) (n + k) rs (IsHole-prev h1 ls p rs n k false false row1) ys
        pending1 in
    (
      g,
      ys,
      rw
          (
            prev-address h p (block n false ∷ rs) (block k false) ls row,
            here-size h (block k false ∷ ls) p n false rs row,
            (tag_read (p - k - 4) k false h.bytes prev.1.sized prev.1.header).0,
            e,
            tags,
          )
          refl,
      row2,
      pending2,
    )

pub coalesce_both-Merged :
    (h : Heap) (ls : List Block) (p n k j : ℕ) (rs : List Block) (xs : List ℕ)
    → IsRow h (block k false ∷ ls) p (block n false ∷ block j false ∷ rs)
    → IsPending h (block k false ∷ ls) p n (block j false ∷ rs) xs
    → Merged (coalesce_both p h) ls (p - k) (n + (k + j)) rs
unfolding coalesce_both
coalesce_both-Merged h ls p n k j rs xs row pending =
    let back = free_backward (p - k) ls in
    let prev = row.tiles.back in
    let next = row.tiles.front.1.0 in
    let (m, f, ys, e, row1, chain1, members1) =
      drop_prev h ls p n k (block j false ∷ rs) xs row pending in
    let h1 = record h { bytes = m; free_listp = f } in
    let low = free_backward-below h.bytes (first h) (p - k) (p + n) ls prev.2 (omega arith) in
    let (m2, f2, zs, e2, row2, chain2, members2) =
      drop_next h1 (block k false ∷ ls) p n j rs ys back row1 chain1 members1 low in
    let h2 = record h1 { bytes = m2; free_listp = f2 } in
    let there : p + n + j ≡ p - k + (n + (k + j)) = omega (prev.0, arith) in
    let members3 =
      subst (λ q. (y : ℕ) → has y zs ≡ (free_backward (p - k) ls y || free_forward q rs y)) there
        members2 in
    let pending2 : IsPending h2 ls (p - k) (n + (k + j)) rs zs =
      IsPending-over h2 ls (block k false ∷ ls) (p - k) (n + (k + j)) p n rs (block j false ∷ rs) zs
        chain2 members3 in
    let (g, tags, row3, pending3) =
      set_tags-IsPending h2 ls (p - k) (n + (k + j)) rs
        (IsHole-both h2 ls p rs n k j false false false row2) zs pending2 in
    (
      g,
      zs,
      rw
          (
            prev-address h p (block n false ∷ block j false ∷ rs) (block k false) ls row,
            next-address h (block k false ∷ ls) p n false (block j false ∷ rs) row,
            here-size h (block k false ∷ ls) p n false (block j false ∷ rs) row,
            (tag_read (p - k - 4) k false h.bytes prev.1.sized prev.1.header).0,
            (tag_read (p + n - 4) j false h.bytes next.sized next.header).0,
            e,
            next-address h1 (block k false ∷ ls) p n false (block j false ∷ rs) row1,
            e2,
            prev-address h2 p (block n false ∷ block j false ∷ rs) (block k false) ls row2,
            tags,
          )
          refl,
      row3,
      pending3,
    )
