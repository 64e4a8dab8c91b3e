-- ===== src/Malloc/Invariant/Extend.antt =====
-- `extend_heap` of mm.c: the break moves up, and the new block joins the row at its end.
use computer_systems_labs.Base.{
  ℕ, ◌+◌, ◌-◌, ◌≤◌, ◌<◌, ◌≡◌, ◌⊎◌, inl, inr, refl, ◌∙◌, arith, false, Bool-cases, none, some, List,
  All, [], ◌∷◌, sign_bit, ◌||◌, ltb, leb,
}
use computer_systems_labs.Malloc.Bytes.{Bytes}
use computer_systems_labs.Malloc.Bytes.Laws.{write_outside}
use computer_systems_labs.Malloc.Memlib.{Brk, mem_sbrk}
use computer_systems_labs.Malloc.Memlib.Laws.{IsBrk}
use computer_systems_labs.Malloc.Heap.{Heap}
use computer_systems_labs.Malloc.Tags.{put, get, pack, hdrp, next_blkp, prev_free, next_free}
use computer_systems_labs.Malloc.Tags.Laws.{IsSize, get-put, read-put}
use computer_systems_labs.Malloc.FreeList.Operations.{IsFreeList}
use computer_systems_labs.Malloc.Alloc.{put_word, set_tags}
use computer_systems_labs.Malloc.Blocks.{Block, block, Node, Tiles}
use computer_systems_labs.Malloc.Blocks.Places.{Backward-le, AtBackward-between}
use computer_systems_labs.Malloc.Blocks.Quiet.{get_ext, Forward-above, Backward-below}
use computer_systems_labs.Malloc.Blocks.Tagging.{
  tagged, set_tags_lem, tagged-outside, tagged-IsBlock, tagged-Tiles, tagged-links, IsFreeList-same,
}
use computer_systems_labs.Malloc.Invariant.{IsRow, IsListed, first, prologue}
use computer_systems_labs.Malloc.Invariant.Edges.{tag_read}
use computer_systems_labs.Malloc.Invariant.Hole.{IsPending}

All-map : (P Q : ℕ → Type 0) → ((y : ℕ) → P y → Q y) → (xs : List ℕ) → All P xs → All Q xs
All-map P Q f [] all = tt
All-map P Q f (x ∷ xs) all = (f x all.0, All-map P Q f xs all.1)

pub mem_sbrk-cases :
    (incr : ℕ) (b : Brk)
    → IsBrk b
    → (mem_sbrk incr b ≡ (none, b))
      ⊎ (mem_sbrk incr b ≡ (some b.mem_brk, record b { mem_brk = b.mem_brk + incr }))
        × IsBrk (record b { mem_brk = b.mem_brk + incr })
unfolding mem_sbrk
mem_sbrk-cases incr b ok =
    elim (Bool-cases (leb sign_bit incr || ltb b.mem_max_addr (b.mem_brk + incr))) [
      | inl refused ↦ inl (rw (refused) refl)
      | inr granted ↦ inr (
        rw (granted) refl,
        record {
          above = let low = ok.above in omega (low, arith);
          below = ground (arith, granted);
          room = ok.room;
          not_null = ok.not_null;
        },
      )
    ]

module _ (h : Heap) (ls : List Block) (n : ℕ) (row : IsRow h ls h.brk.mem_brk []) (sized : IsSize n)
    (least : 24 ≤ n) (moved : IsBrk (record h.brk { mem_brk = h.brk.mem_brk + n })) where
  abbrev e : ℕ
  e = h.brk.mem_brk

  above : first h ≤ e
  above = Backward-le h.bytes (first h) e ls row.tiles.back

  -- The tags of the new block, and the header of the new epilogue.
  abbrev block_bytes : Bytes
  block_bytes = tagged e n (pack n 0) h.bytes

  abbrev new_bytes : Bytes
  new_bytes = put (e + n - 4) (pack 0 1) block_bytes

  abbrev pub extended : Heap
  extended = record h { bytes = new_bytes; brk = record h.brk { mem_brk = e + n } }

  epilogue-outside : (a : ℕ) → (a + 4 < e + n) ⊎ (e + n ≤ a) → new_bytes a ≡ block_bytes a
  unfolding put
  epilogue-outside a out =
      write_outside 4 (e + n - 4) (pack 0 1) a block_bytes (ground (arith, out))

  new-Tiles : Tiles new_bytes (first h) (e + n) ls e (block n false ∷ [])
  new-Tiles =
      let tiles =
        tagged-Tiles e n false (omega (above, arith)) sized least h.bytes (first h) (e + n) ls []
          (omega arith) row.tiles.back refl in
      record {
        back =
            Backward-below block_bytes new_bytes (first h) e ls (omega arith)
              (λ a lo hi. epilogue-outside a (inl (omega (hi, arith)))) tiles.back;
        front =
            Forward-above block_bytes new_bytes e (e + n) (block n false ∷ [])
              (omega (above, arith)) (λ a lo hi. epilogue-outside a (inl hi)) tiles.front;
      }

  new-get : (q : ℕ) → q + 8 ≤ e → get q new_bytes ≡ get q h.bytes
  new-get q low =
      get_ext q block_bytes new_bytes
        (λ a lo hi. epilogue-outside a (inl (omega (lo, hi, low, arith))))
      ∙ get_ext q h.bytes block_bytes (λ a lo hi.
        tagged-outside e n false (omega (above, arith)) sized least h.bytes a
          (inl (omega (lo, hi, low, arith))) (inl (omega (lo, hi, low, least, arith))))

  pub extended-IsRow : IsRow extended ls e (block n false ∷ [])
  extended-IsRow = record {
    seat = record {
      brk_ok = moved;
      based = row.seat.based;
      aligned = row.seat.aligned;
      limit = row.seat.limit;
    };
    edges = record {
      prologue_header =
          new-get (h.heap_listp + 4) (omega (above, arith)) ∙ row.edges.prologue_header;
      guard = new-get (h.heap_listp + 40) (omega (above, arith)) ∙ row.edges.guard;
      epilogue_header =
          get-put (e + n - 4) 0 1 block_bytes (record { fits = omega arith; eights = refl })
            (omega arith);
    };
    tiles = new-Tiles;
  }

  Node-below : (y : ℕ) → Node (prologue h) ls e [] y → y + 24 ≤ e
  Node-below y (inl at) = omega (at, above, arith)
  Node-below y (inr (inl at)) = (AtBackward-between h.bytes (first h) e y ls row.tiles.back at).1
  Node-below y (inr (inr at)) = absurd at

  new-links :
      (y : ℕ)
      → y + 24 ≤ e
      → (prev_free y new_bytes ≡ prev_free y h.bytes)
        × (next_free y new_bytes ≡ next_free y h.bytes)
  unfolding prev_free next_free
  new-links y low =
      let links = tagged-links e n false (omega (above, arith)) sized least h.bytes y (inl low) in
      (
        read-put 8 y (e + n - 4) (pack 0 1) block_bytes (ground (arith, low)) ∙ links.0,
        read-put 8 (y + 8) (e + n - 4) (pack 0 1) block_bytes (ground (arith, low)) ∙ links.1,
      )

  widen : (y : ℕ) → Node (prologue h) ls e [] y → Node (prologue h) ls e (block n false ∷ []) y
  widen y (inl at) = inl at
  widen y (inr (inl at)) = inr (inl at)
  widen y (inr (inr at)) = absurd at

  pub extended-IsPending : (xs : List ℕ) → IsListed h ls e [] xs → IsPending extended ls e n [] xs
  extended-IsPending xs listed =
      let same : IsFreeList (Node (prologue h) ls e []) (prologue h) extended xs =
        IsFreeList-same (Node (prologue h) ls e []) (prologue h) h extended xs refl
          (λ y at. new-links y (Node-below y at)) listed.chain in
      record {
        chain = record {
          start = same.start;
          links = same.links;
          nodes =
              All-map (Node (prologue h) ls e []) (Node (prologue h) ls e (block n false ∷ []))
                widen xs same.nodes;
          end_node = inl refl;
          distinct = same.distinct;
        };
        members = listed.members;
      }

  -- The stores of `extend_heap` behind a break that has moved.
  pub stores :
      (let h2 = set_tags e n 0 (record h { brk = record h.brk { mem_brk = e + n } }) in
        put_word (hdrp (next_blkp e h2.bytes)) (pack 0 1) h2)
      ≡ extended
  unfolding put_word next_blkp
  stores =
      let tags =
        set_tags_lem e n false (omega (above, arith)) sized least
          (record h { brk = record h.brk { mem_brk = e + n } }) in
      let b = tagged-IsBlock e n false (omega (above, arith)) sized least h.bytes in
      let size = (tag_read (e - 4) n false block_bytes sized b.header).0 in rw (tags, size) refl
