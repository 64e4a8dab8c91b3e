-- ===== src/Malloc/Invariant/Views.antt =====
-- The same heap seen from another block: the invariant does not depend on where it is seen from.
use mathlib.Core.Path.{subst}
use computer_systems_labs.Base.{
  ℕ, ◌+◌, ◌-◌, ◌≤◌, ◌≡◌, inl, inr, refl, sym, ap, ◌∙◌, arith, Bool, true, false, not, Bool-cases,
  ◌==◌, ◌&&◌, ◌||◌, List, [], ◌∷◌,
}
use computer_systems_labs.Malloc.Heap.{Heap}
use computer_systems_labs.Malloc.Blocks.{
  Block, block, Node, Forward, Backward, IsBlock, free_forward, free_backward,
}
use computer_systems_labs.Malloc.Blocks.Places.{Backward-le}
use computer_systems_labs.Malloc.Invariant.{IsRow, IsListed, first, prologue}
use computer_systems_labs.Malloc.Invariant.Links.{IsFreeList-over}
use computer_systems_labs.Malloc.Invariant.Hole.{free_backward-AtBackward, free_forward-AtForward}

-- Blocks that fill the heap from edge to edge, and a free list with the free ones and no others.
abbrev pub IsViewed : Heap → List Block → ℕ → List Block → Type 0
IsViewed h ls p rs = IsRow h ls p rs × (xs : List ℕ) × IsListed h ls p rs xs

-- The same list, with its nodes and members named from another block.
IsListed-over :
    (h : Heap) (ls ms : List Block) (p q : ℕ) (rs ss : List Block) (xs : List ℕ)
    → IsListed h ls p rs xs
    → ((y : ℕ)
        → (free_backward q ms y || free_forward q ss y)
          ≡ (free_backward p ls y || free_forward p rs y))
    → IsListed h ms q ss xs
IsListed-over h ls ms p q rs ss xs listed same = record {
  chain =
      IsFreeList-over (Node (prologue h) ls p rs) (Node (prologue h) ms q ss) (prologue h) h xs
        (inl refl)
        (λ y here. elim (Bool-cases (free_backward q ms y)) [
          | inl before ↦ inr (inl (free_backward-AtBackward q y ms before))
          | inr not_before ↦ inr (
              inr (
                free_forward-AtForward q y ss
                  (ground (arith, listed.members y, same y, here, not_before))))
        ])
        listed.chain;
  members = λ y. listed.members y ∙ sym (same y);
}

pub view_next :
    (h : Heap) (ls : List Block) (p : ℕ) (b : Block) (rs : List Block)
    → IsViewed h ls p (b ∷ rs)
    → IsViewed h (b ∷ ls) (p + b.size) rs
view_next h ls p b rs (row, xs, listed) =
    let back_at : p + b.size - b.size ≡ p = omega arith in
    let above : first h ≤ p = Backward-le h.bytes (first h) p ls row.tiles.back in
    (
      record {
        seat = row.seat;
        edges = row.edges;
        tiles = record {
          back = (
            omega (above, arith),
            subst (λ q. IsBlock h.bytes q b) (sym back_at) row.tiles.front.0,
            subst (λ q. Backward h.bytes (first h) ls q) (sym back_at) row.tiles.back,
          );
          front = row.tiles.front.1;
        };
      },
      xs,
      IsListed-over h ls (b ∷ ls) p (p + b.size) (b ∷ rs) rs xs listed (λ y.
          rw (back_at)
            (swap (y == p && not b.used) (free_backward p ls y) (free_forward (p + b.size) rs y))),
    )
  where
    swap : (a b c : Bool) → ((a || b) || c) ≡ (b || (a || c))
    swap a b c = ground arith

pub view_prev :
    (h : Heap) (ls : List Block) (p : ℕ) (b : Block) (rs : List Block)
    → IsViewed h (b ∷ ls) p rs
    → IsViewed h ls (p - b.size) (b ∷ rs)
view_prev h ls p b rs (row, xs, listed) =
    let back = row.tiles.back in
    let there : p - b.size + b.size ≡ p = omega (back.0, arith) in
    (
      record {
        seat = row.seat;
        edges = row.edges;
        tiles = record {
          back = back.2;
          front =
              (back.1, subst (λ q. Forward h.bytes q rs h.brk.mem_brk) (sym there) row.tiles.front);
        };
      },
      xs,
      IsListed-over h (b ∷ ls) ls p (p - b.size) rs (b ∷ rs) xs listed (λ y. rw (there) (
          swap (y == p - b.size && not b.used) (free_backward (p - b.size) ls y)
            (free_forward p rs y))),
    )
  where
    swap : (a b c : Bool) → (b || (a || c)) ≡ ((a || b) || c)
    swap a b c = ground arith

-- Every block in front of `p` can be seen from.
pub view_at :
    (h : Heap) (ls : List Block) (p : ℕ) (rs : List Block) (y : ℕ)
    → IsViewed h ls p rs
    → free_backward p ls y ≡ true
    → (ms : List Block) × (k : ℕ) × (ss : List Block) × IsViewed h ms y (block k false ∷ ss)
view_at h [] p rs y viewed found = ground (arith, found)
view_at h (b ∷ ls) p rs y viewed found = elim (Bool-cases (y == p - b.size && not b.used)) [
  | inl here ↦
      let same : p - b.size ≡ y = ground (arith, here) in
      let free : b.used ≡ false = ground (arith, here) in
      let head : b ≡ block b.size false = ap (λ u. block b.size u) free in
      (
        ls,
        b.size,
        rs,
        subst (λ c. IsViewed h ls y (c ∷ rs)) head
            (subst (λ q. IsViewed h ls q (b ∷ rs)) same (view_prev h ls p b rs viewed)),
      )
  | inr other ↦
      view_at h ls (p - b.size) (b ∷ rs) y (view_prev h ls p b rs viewed)
        (ground (arith, found, other))
]

-- From the end of the heap.
pub view_end :
    (h : Heap) (ls : List Block) (p : ℕ) (rs : List Block)
    → IsViewed h ls p rs
    → (ms : List Block) × IsViewed h ms h.brk.mem_brk []
view_end h ls p [] viewed =
    let end : p ≡ h.brk.mem_brk = viewed.0.tiles.front in
    (ls, subst (λ q. IsViewed h ls q []) end viewed)
view_end h ls p (b ∷ rs) viewed = view_end h (b ∷ ls) (p + b.size) rs (view_next h ls p b rs viewed)
