-- ===== src/Malloc/Blocks/Tagging.antt =====
-- The two stores that give a block its tags: what they write, and what they leave.
use computer_systems_labs.Base.{
  ℕ, ◌+◌, ◌-◌, ◌≤◌, ◌<◌, ◌≡◌, ◌⊎◌, inl, inr, refl, ◌∙◌, arith, Bool, true, false, List, [], ◌∷◌,
  All,
}
use computer_systems_labs.Malloc.Bytes.{Bytes, write}
use computer_systems_labs.Malloc.Bytes.Laws.{write_outside}
use computer_systems_labs.Malloc.Heap.{Heap}
use computer_systems_labs.Malloc.Tags.{put, pack, ftrp, next_free, prev_free}
use computer_systems_labs.Malloc.Tags.Laws.{IsSize, get-put, tag-put, get-put_elsewhere, read-put}
use computer_systems_labs.Malloc.FreeList.Links.{Links}
use computer_systems_labs.Malloc.FreeList.Operations.{IsFreeList}
use computer_systems_labs.Malloc.Alloc.{put_word, set_tags}
use computer_systems_labs.Malloc.Blocks.{Block, block, bit, IsBlock, Forward, Backward, Tiles}
use computer_systems_labs.Malloc.Blocks.Quiet.{Forward-above, Backward-below}

-- The bytes with the tags of a block of `k` bytes at `p`.
unfoldable pub tagged : ℕ → ℕ → ℕ → Bytes → Bytes
tagged p k v m = put (p + k - 8) v (put (p - 4) v m)

bit-lt : (u : Bool) → bit u < 2
bit-lt true = omega arith
bit-lt false = omega arith

module _ (p k : ℕ) (u : Bool) (low : 4 ≤ p) (sized : IsSize k) (least : 24 ≤ k) where
  abbrev word : ℕ
  word = pack k (bit u)

  -- The footer goes where the header that was just written places it.
  pub set_tags_lem :
      (h : Heap) → set_tags p k (bit u) h ≡ record h { bytes = tagged p k word h.bytes }
  unfolding set_tags put_word ftrp tagged
  set_tags_lem h = rw ((tag-put (p - 4) k (bit u) h.bytes sized (bit-lt u)).0) refl

  pub tagged-outside :
      (m : Bytes) (a : ℕ)
      → (a + 4 < p) ⊎ (p ≤ a)
      → (a + 8 < p + k) ⊎ (p + k ≤ a + 4)
      → tagged p k word m a ≡ m a
  unfolding tagged put
  tagged-outside m a head foot =
      write_outside 4 (p + k - 8) word a (write 4 (p - 4) word m) (ground arith)
      ∙ write_outside 4 (p - 4) word a m (ground arith)

  pub tagged-IsBlock : (m : Bytes) → IsBlock (tagged p k word m) p (block k u)
  unfolding tagged
  tagged-IsBlock m = record {
    sized = sized;
    least = least;
    header =
        get-put_elsewhere (p - 4) (p + k - 8) word (put (p - 4) word m) (inr (omega arith))
        ∙ get-put (p - 4) k (bit u) m sized (bit-lt u);
    footer = get-put (p + k - 8) k (bit u) (put (p - 4) word m) sized (bit-lt u);
  }

  -- The rows below and above the new block stay, and it joins them.
  pub tagged-Tiles :
      (m : Bytes) (s e : ℕ) (ls rs : List Block)
      → 4 ≤ s
      → Backward m s ls p
      → Forward m (p + k) rs e
      → Tiles (tagged p k word m) s e ls p (block k u ∷ rs)
  tagged-Tiles m s e ls rs start back front = record {
    back =
        Backward-below m (tagged p k word m) s p ls start
          (λ a l b. tagged-outside m a (inl b) (inl (omega arith))) back;
    front = (
      tagged-IsBlock m,
      Forward-above m (tagged p k word m) (p + k) e rs (omega arith)
          (λ a l b. tagged-outside m a (inr (omega arith)) (inr l)) front,
    );
  }

  -- Links of places that keep clear of the tags stay.
  pub tagged-links :
      (m : Bytes) (y : ℕ)
      → (y + 24 ≤ p) ⊎ (y ≡ p) ⊎ (p + k ≤ y)
      → (prev_free y (tagged p k word m) ≡ prev_free y m)
        × (next_free y (tagged p k word m) ≡ next_free y m)
  unfolding tagged prev_free next_free
  tagged-links m y place = (
    read-put 8 y (p + k - 8) word (put (p - 4) word m) (ground arith)
        ∙ read-put 8 y (p - 4) word m (ground arith),
    read-put 8 (y + 8) (p + k - 8) word (put (p - 4) word m) (ground arith)
        ∙ read-put 8 (y + 8) (p - 4) word m (ground arith),
  )

Links-same :
    (Place : ℕ → Type 0) (m m' : Bytes) (t before : ℕ) (xs : List ℕ)
    → ((y : ℕ) → Place y → (prev_free y m' ≡ prev_free y m) × (next_free y m' ≡ next_free y m))
    → Place t
    → All Place xs
    → Links m t before xs
    → Links m' t before xs
Links-same Place m m' t before [] same pt ps links = (same t pt).0 ∙ links
Links-same Place m m' t before (x ∷ xs) same pt ps links = (
  (same x ps.0).0 ∙ links.0,
  (same x ps.0).1 ∙ links.1,
  Links-same Place m m' t x xs same pt ps.1 links.2,
)

-- A free list in memory whose links are the same.
pub IsFreeList-same :
    (Place : ℕ → Type 0) (t : ℕ) (h h' : Heap) (xs : List ℕ)
    → h'.free_listp ≡ h.free_listp
    → ((y : ℕ)
        → Place y
        → (prev_free y h'.bytes ≡ prev_free y h.bytes)
          × (next_free y h'.bytes ≡ next_free y h.bytes))
    → IsFreeList Place t h xs
    → IsFreeList Place t h' xs
IsFreeList-same Place t h h' xs first same l = record {
  start = first ∙ l.start;
  links = Links-same Place h.bytes h'.bytes t 0 xs same l.end_node l.nodes l.links;
  nodes = l.nodes;
  end_node = l.end_node;
  distinct = l.distinct;
}
