-- ===== src/Malloc/Invariant/Edges.antt =====
-- The edges of the heap, and what the tests of `coalesce` read of the neighbours of a block.
use computer_systems_labs.Base.{
  ℕ, ◌+◌, ◌-◌, ◌<◌, ◌≡◌, refl, sym, ap, ◌∙◌, arith, Bool, true, false, not, ◌==◌, List, [], ◌∷◌,
}
use computer_systems_labs.Malloc.Bytes.{Bytes}
use computer_systems_labs.Malloc.Heap.{Heap}
use computer_systems_labs.Malloc.Tags.{get, get_size, get_alloc, hdrp, ftrp, next_blkp, prev_blkp}
use computer_systems_labs.Malloc.Tags.Laws.{IsSize, bit_and-one, bit_and-size_mask}
use computer_systems_labs.Malloc.Alloc.{prev_is_alloc, next_is_alloc}
use computer_systems_labs.Malloc.Blocks.{Block, block, bit, Forward}
use computer_systems_labs.Malloc.Invariant.{IsRow}

-- A word that is a size and a bit is read back as the two.
pub tag_read :
    (q k : ℕ) (u : Bool) (m : Bytes)
    → IsSize k
    → get q m ≡ k + bit u
    → (get_size q m ≡ k) × (get_alloc q m ≡ bit u)
unfolding get_size get_alloc
tag_read q k true m s e =
    rw (e, bit_and-size_mask (k + 1) (omega arith), bit_and-one (k + 1) (omega arith)) (omega arith)
tag_read q k false m s e =
    rw (e, bit_and-size_mask (k + 0) (omega arith), bit_and-one (k + 0) (omega arith)) (omega arith)

-- In use: the block before `p`, or the first edge; the block at the front, or the other edge.
abbrev pub nearest_used : List Block → Bool
nearest_used [] = true
nearest_used (b ∷ bs) = b.used

not_zero : (u : Bool) → not (bit u == 0) ≡ u
not_zero true = refl
not_zero false = refl

module _ (h : Heap) (ls : List Block) (p : ℕ) (n : ℕ) (u : Bool) (rs : List Block)
    (row : IsRow h ls p (block n u ∷ rs)) where
  pub here-size : get_size (p - 4) h.bytes ≡ n
  here-size = let b = row.tiles.front.0 in (tag_read (p - 4) n u h.bytes b.sized b.header).0

  pub next-address : next_blkp p h.bytes ≡ p + n
  unfolding next_blkp
  next-address = rw here-size refl

  pub next-used : next_is_alloc p h.bytes ≡ nearest_used rs
  unfolding next_is_alloc
  next-used = rw next-address (after rs row.tiles.front.1)
    where
      after :
          (bs : List Block)
          → Forward h.bytes (p + n) bs h.brk.mem_brk
          → not (get_alloc (hdrp (p + n)) h.bytes == 0) ≡ nearest_used bs
      after [] f =
          rw
            ((tag_read (p + n - 4) 0 true h.bytes (record { fits = omega arith; eights = refl })
              (rw f row.edges.epilogue_header)).1)
            refl
      after (b ∷ bs) f =
          rw ((tag_read (p + n - 4) b.size b.used h.bytes f.0.sized f.0.header).1) (not_zero b.used)

module _ (h : Heap) (p : ℕ) (rs : List Block) where
  pub prev-address :
      (b : Block) (ls : List Block) → IsRow h (b ∷ ls) p rs → prev_blkp p h.bytes ≡ p - b.size
  unfolding prev_blkp
  prev-address b ls row =
      let t = row.tiles.back in
      let back : p - b.size + b.size ≡ p = omega (t.0, t.1.least, arith) in
      ap (λ k. p - k)
        ((tag_read (p - 8) b.size b.used h.bytes t.1.sized
          (sym (ap (λ q. get (q - 8) h.bytes) back) ∙ t.1.footer)).0)

  pub prev-used : (ls : List Block) → IsRow h ls p rs → prev_is_alloc p h.bytes ≡ nearest_used ls
  unfolding prev_is_alloc prev_blkp ftrp
  prev-used [] row =
      let guard : get (p - 8) h.bytes ≡ 0 =
        ap (λ q. get q h.bytes) (omega (row.tiles.back, arith)) ∙ row.edges.guard in
      let nothing : get_size (p - 8) h.bytes ≡ 0 =
        (tag_read (p - 8) 0 false h.bytes (record { fits = omega arith; eights = refl }) guard).0 in
      rw nothing (ground arith)
  prev-used (b ∷ ls) row =
      let t = row.tiles.back in
      let below : p - b.size < p = omega (t.0, t.1.least, arith) in
      rw
        (
          prev-address b ls row,
          (tag_read (p - b.size - 4) b.size b.used h.bytes t.1.sized t.1.header).0,
          (tag_read (p - b.size + b.size - 8) b.size b.used h.bytes t.1.sized t.1.footer).1,
          not_zero b.used,
        )
        (ground (arith, below))

-- In a heap that blocks with equal tags at both ends fill from edge to edge, the two tests of
-- `coalesce` at a block tell whether the block before it and the block behind it are in use, and an
-- edge of the heap counts as in use.
pub neighbours_lem :
    (h : Heap) (ls : List Block) (p : ℕ) (b : Block) (rs : List Block)
    → IsRow h ls p (b ∷ rs)
    → (prev_is_alloc p h.bytes ≡ nearest_used ls) × (next_is_alloc p h.bytes ≡ nearest_used rs)
neighbours_lem h ls p b rs row =
    (prev-used h p (b ∷ rs) ls row, next-used h ls p b.size b.used rs row)
