-- ===== src/Malloc/Invariant/Init.antt =====
-- `mm_init` of mm.c makes the first row of blocks.
use mathlib.Core.Path.{subst}
use computer_systems_labs.Base.{
  ℕ, ◌+◌, ◌-◌, ◌%◌, ◌^◌, ◌≤◌, ◌<◌, ◌≡◌, inl, refl, sym, ap, ◌∙◌, arith, true, false, some, [], ◌∷◌,
  ◌==◌, ◌≢◌, ltb, leb, ◌||◌, sign_bit,
}
use computer_systems_labs.Malloc.Bytes.{read}
use computer_systems_labs.Malloc.Memlib.{Brk, mem_sbrk}
use computer_systems_labs.Malloc.Memlib.Laws.{IsBrk}
use computer_systems_labs.Malloc.Heap.{Heap}
use computer_systems_labs.Malloc.Tags.{get, pack, prev_free, hdrp, next_blkp}
use computer_systems_labs.Malloc.Alloc.{
  put_word, coalesce, extend_size, extend_heap, write_prologue, mm_init,
}
use computer_systems_labs.Malloc.Blocks.{block}
use computer_systems_labs.Malloc.Invariant.{IsRow, IsListed}
use computer_systems_labs.Malloc.Invariant.Extended.{extend_heap-granted}
use computer_systems_labs.Malloc.Invariant.Views.{IsViewed}
use computer_systems_labs.Malloc.Invariant.Words.{over, zero_at, tag_at, read_pair, set_tags_again}

-- The word of an epilogue, before the new block gets its header.
extend_heap_again :
    (words w : ℕ) (h : Heap) (b : Brk)
    → mem_sbrk (extend_size words) h.brk ≡ (some h.brk.mem_brk, b)
    → extend_heap words (put_word (hdrp h.brk.mem_brk) w h) ≡ extend_heap words h
unfolding extend_heap put_word
extend_heap_again words w h b granted =
    let e = h.brk.mem_brk in
    let brk_of = ap (λ r. r.1) granted in
    rw (granted, brk_of, extend_heap)
      (ap (λ g. coalesce e (put_word (hdrp (next_blkp e g.bytes)) (pack 0 1) g))
        (set_tags_again e (extend_size words) 0 w (record h { brk = b })))

room_for :
    (n : ℕ) (b : Brk)
    → n < sign_bit
    → b.mem_brk + n ≤ b.mem_max_addr
    → mem_sbrk n b ≡ (some b.mem_brk, record b { mem_brk = b.mem_brk + n })
unfolding mem_sbrk
room_for n b few room =
    let test : (leb sign_bit n || ltb b.mem_max_addr (b.mem_brk + n)) ≡ false = ground arith in
    rw (test) refl

module _ (h : Heap) (ok : IsBrk h.brk) (empty : h.brk.mem_brk ≡ h.brk.mem_start_brk)
    (eights : h.brk.mem_brk % 8 ≡ 0) (limit : h.brk.mem_max_addr < 2 ^ 63)
    (zeroed : get (h.brk.mem_brk + 40) h.bytes ≡ 0) where
  abbrev base : ℕ
  base = h.brk.mem_brk

  abbrev opened : Heap
  opened = record h { brk = record h.brk { mem_brk = base + 48 }; heap_listp = base }

  -- The heap with the edges only: the word of an epilogue is written too.
  abbrev edged : Heap
  edged = put_word (hdrp (base + 48)) (pack 0 1) (write_prologue base opened)

  end : base + 44 ≡ base + 48 - 4
  end = omega arith

  there : base + 12 ≡ base + 8 + 4
  there = omega arith

  edge_words :
      (get (base + 4) edged.bytes ≡ 25)
      × (get (base + 8) edged.bytes ≡ 0)
      × (get (base + 12) edged.bytes ≡ 0)
      × (get (base + 40) edged.bytes ≡ 0)
      × (get (base + 44) edged.bytes ≡ 1)
  unfolding put_word write_prologue
  edge_words = (
    over _ _ _ (ground arith) (
        over _ _ _ (ground arith) (
          over _ _ _ (ground arith) (
            over _ _ _ (ground arith) (
              over _ _ _ (ground arith) (
                tag_at _ 24 1 _ (record { fits = omega arith; eights = refl }) (omega arith)
                  refl))))),
    over _ _ _ (ground arith) (
        over _ _ _ (ground arith)
          (over _ _ _ (ground arith) (over _ _ _ (ground arith) (zero_at _ _ refl)))),
    over _ _ _ (ground arith)
        (over _ _ _ (ground arith) (over _ _ _ (ground arith) (zero_at _ _ there))),
    over _ _ _ (ground arith) (
        over _ _ _ (ground arith) (
          over _ _ _ (ground arith) (
            over _ _ _ (ground arith) (
              over _ _ _ (ground arith)
                (over _ _ _ (ground arith) (over _ _ _ (ground arith) (zeroed))))))),
    tag_at _ 0 1 _ (record { fits = omega arith; eights = refl }) (omega arith) end,
  )

  edge_link : read 8 (base + 8) edged.bytes ≡ 0
  edge_link =
      let high = subst (λ p. get p edged.bytes ≡ 0) there edge_words.2 in
      read_pair (base + 8) edged.bytes ∙ omega (arith, high, edge_words.1)

  edged-IsRow : IsRow edged [] (base + 48) []
  unfolding put_word write_prologue
  edged-IsRow = record {
    seat = record {
      brk_ok = record {
        above = let low = ok.above in omega (low, arith);
        below = let room = ok.room in omega (room, empty, arith);
        room = ok.room;
        not_null = ok.not_null;
      };
      based = empty;
      aligned = eights;
      limit = limit;
    };
    edges = record {
      prologue_header = edge_words.0;
      guard = edge_words.3;
      epilogue_header = subst (λ p. get p edged.bytes ≡ 1) end edge_words.4;
    };
    tiles = record { back = refl; front = refl };
  }

  edged-IsListed : IsListed edged [] (base + 48) [] []
  unfolding put_word write_prologue prev_free
  edged-IsListed = record {
    chain = record {
      start = refl;
      links = edge_link;
      nodes = tt;
      end_node = inl refl;
      distinct = tt;
    };
    members = λ y. refl;
  }

  room : base + 72 ≤ h.brk.mem_max_addr
  room = let all = ok.room in omega (all, empty, arith)

  moved : IsBrk (record h.brk { mem_brk = base + 48 + 24 })
  moved = record {
    above = let low = ok.above in omega (low, arith);
    below = omega (room, arith);
    room = ok.room;
    not_null = ok.not_null;
  }

  -- The first block.
  first_block :
      (bp : ℕ) × (g : Heap) × (extend_heap 4 (write_prologue base opened) ≡ (bp, g))
      × (bp ≢ 0)
      × IsViewed g [] (base + 48) (block 24 false ∷ [])
  unfolding write_prologue put_word extend_size
  first_block =
      let granted =
        room_for 24 (record h.brk { mem_brk = base + 48 }) (omega arith) (omega (room, arith)) in
      let same = extend_heap_again 4 (pack 0 1) (write_prologue base opened) _ granted in
      let (at, done) =
        extend_heap-granted 4 edged [] [] edged-IsRow edged-IsListed (omega arith) granted moved in
      let here : base + 48 - 0 ≡ base + 48 = omega arith in
      (
        (extend_heap 4 edged).0,
        (extend_heap 4 edged).1,
        sym same,
        ground (arith, at),
        subst (λ q. IsViewed (extend_heap 4 edged).1 [] q (block 24 false ∷ [])) here
            (done.0, ((base + 48 - 0) ∷ done.1), done.2),
      )

  pub mm_init_lem :
      (g : Heap) × (mm_init h ≡ (true, g)) × IsViewed g [] (base + 48) (block 24 false ∷ [])
  unfolding mm_init
  mm_init_lem =
      let granted = room_for 48 h.brk (omega arith) (omega (room, arith)) in
      let brk_of = ap (λ r. r.1) granted in
      let (bp, g, made, there, viewed) = first_block in
      let test : (bp == 0) ≡ false = ground (arith, there) in
      (g, rw (granted, brk_of, made, test, mm_init) refl, viewed)
