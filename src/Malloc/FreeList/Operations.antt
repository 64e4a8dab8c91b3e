-- ===== src/Malloc/FreeList/Operations.antt =====
-- `insertBlock` and `removeBlock` act on the list of free blocks as its cons and as the removal of
-- one element.
use computer_systems_labs.Base.{
  ℕ, ◌≡◌, ◌≢◌, refl, ◌∙◌, arith, ◌==◌, false, if◌then◌else◌, List, [], ◌∷◌, ◌++◌, All,
}
use computer_systems_labs.Malloc.Bytes.{Bytes}
use computer_systems_labs.Malloc.Heap.{Heap}
use computer_systems_labs.Malloc.Tags.{next_free, prev_free, set_next_free, set_prev_free}
use computer_systems_labs.Malloc.FreeList.{insert_block, unlink_before, remove_block}
use computer_systems_labs.Malloc.FreeList.Links.{
  head_or, last_or, Links, Distinct, Places, prev-set_prev, next-set_prev, prev-set_next,
  next-set_next,
}
use computer_systems_labs.Malloc.FreeList.Splice.{
  relink, splice, Links-at, Distinct-last, Distinct-remove, All-remove, All-append_left,
  All-append_right, head_or-satisfies, last_or-satisfies, others_ne,
}

others :
    (Node : ℕ → Type 0) (bp : ℕ) (xs : List ℕ)
    → All Node xs
    → All (λ y. bp ≢ y) xs
    → All (λ y. Node y × (y ≢ bp)) xs
others Node bp [] ns fresh = tt
others Node bp (x ∷ xs) ns fresh = ((ns.0, ground (arith, fresh.0)), others Node bp xs ns.1 fresh.1)

-- The free list of `h` is `xs`: it starts at `free_listp` and ends at the prologue `t`, and each of
-- its nodes stands where nodes may be.
pub record IsFreeList (Node : ℕ → Type 0) (t : ℕ) (h : Heap) (xs : List ℕ) : Type 0 where
  pub start : h.free_listp ≡ head_or t xs
  pub links : Links h.bytes t 0 xs
  pub nodes : All Node xs
  pub end_node : Node t
  pub distinct : Distinct t xs

module _ {Node : ℕ → Type 0} (places : Places Node) (t : ℕ) (h : Heap) where
  -- The bytes after the three stores of `insertBlock`.
  module _ (bp : ℕ) (nb : Node bp) (ns : Node h.free_listp) where
    abbrev stored : Bytes
    stored =
        set_prev_free bp 0 (set_prev_free h.free_listp bp (set_next_free bp h.free_listp h.bytes))

    stored-prev :
        (y : ℕ)
        → Node y
        → prev_free y stored
          ≡ (if y == bp then 0 else (if y == h.free_listp then bp else prev_free y h.bytes))
    stored-prev y ny =
        let start = h.free_listp in
        let m1 = set_next_free bp start h.bytes in
        let m2 = set_prev_free start bp m1 in
        rw
          (
            prev-set_prev places m2 bp y 0 nb ny (omega arith),
            prev-set_prev places m1 start y bp ns ny (places.fits bp nb),
            prev-set_next places h.bytes bp y start nb ny (places.fits start ns),
          )
          refl

    stored-next :
        (y : ℕ)
        → Node y
        → next_free y stored ≡ (if y == bp then h.free_listp else next_free y h.bytes)
    stored-next y ny =
        let start = h.free_listp in
        let m1 = set_next_free bp start h.bytes in
        let m2 = set_prev_free start bp m1 in
        rw
          (
            next-set_prev places m2 bp y 0 nb ny (omega arith),
            next-set_prev places m1 start y bp ns ny (places.fits bp nb),
            next-set_next places h.bytes bp y start nb ny (places.fits start ns),
          )
          refl

  -- Where the free list is `xs`, links may stand at the nodes only, which keep 16 bytes apart and
  -- are not 0, and `bp` is a node that is not on the list, `insertBlock` makes it the list `bp`
  -- and `xs`.
  pub insert_block-IsFreeList :
      (bp : ℕ) (xs : List ℕ)
      → Node bp
      → bp ≢ t
      → All (λ y. bp ≢ y) xs
      → IsFreeList Node t h xs
      → IsFreeList Node t (insert_block bp h) (bp ∷ xs)
  unfolding insert_block
  insert_block-IsFreeList bp xs nb nt fresh l =
      let ns : Node h.free_listp = rw l.start (head_or-satisfies Node t xs l.end_node l.nodes) in
      record {
        start = refl;
        links = (
          ground (arith, stored-prev bp nb ns bp nb),
          ground (arith, stored-next bp nb ns bp nb, l.start),
          relink (λ y. Node y × (y ≢ bp)) h.bytes (stored bp nb ns) t h.free_listp bp
              (λ y p. ground (arith, stored-prev bp nb ns y p.0))
              (λ y p. ground (arith, stored-next bp nb ns y p.0)) 0 xs l.links l.start
              (others Node bp xs l.nodes fresh) (l.end_node, ground arith) l.distinct
              (others_ne bp bp xs refl fresh),
        );
        nodes = (nb, l.nodes);
        end_node = l.end_node;
        distinct = (nt, fresh, l.distinct);
      }

  ne_zero : (zs : List ℕ) → All Node zs → All (λ y. y ≢ 0) zs
  ne_zero [] ns = tt
  ne_zero (z ∷ zs) ns = (omega (arith, places.not_null z ns.0), ne_zero zs ns.1)

  -- The two stores of `removeBlock`, where a block stands before and where none does.
  pub remove_block-first :
      (bp : ℕ)
      → prev_free bp h.bytes ≡ 0
      → remove_block bp h ≡ record h {
        bytes = set_prev_free (next_free bp h.bytes) 0 h.bytes;
        free_listp = next_free bp h.bytes;
      }
  unfolding remove_block unlink_before
  remove_block-first bp e = rw (e, unlink_before) (rw e)

  unlink_before-inner :
      (bp p n : ℕ)
      → Node p
      → prev_free bp h.bytes ≡ p
      → next_free bp h.bytes ≡ n
      → unlink_before bp h ≡ record h { bytes = set_next_free p n h.bytes }
  unfolding unlink_before
  unlink_before-inner bp p n np ep en =
      let real : (p == 0) ≡ false = ground (arith, places.not_null p np) in rw (ep, en, real) refl

  pub remove_block-inner :
      (bp p n : ℕ)
      → Node bp
      → Node p
      → Node n
      → bp ≢ p
      → prev_free bp h.bytes ≡ p
      → next_free bp h.bytes ≡ n
      → remove_block bp h ≡ record h { bytes = set_prev_free n p (set_next_free p n h.bytes) }
  unfolding remove_block
  remove_block-inner bp p n nb np nn ne ep en =
      let m1 = set_next_free p n h.bytes in
      let other : (bp == p) ≡ false = ground arith in
      let next : next_free bp m1 ≡ n =
        next-set_next places h.bytes p bp n np nb (places.fits n nn) ∙ rw (other, en) refl in
      let prev : prev_free bp m1 ≡ p =
        prev-set_next places h.bytes p bp n np nb (places.fits n nn) ∙ ep in
      rw (unlink_before-inner bp p n np ep en, next, prev) refl

  -- Where the free list is `ys`, `bp` and `zs` in this order, and links may stand at the nodes
  -- only, which keep 16 bytes apart and are not 0, `removeBlock` makes it `ys` and `zs`.
  pub remove_block-IsFreeList :
      (xs ys : List ℕ) (bp : ℕ)
      → IsFreeList Node t h (xs ++ bp ∷ ys)
      → IsFreeList Node t (remove_block bp h) (xs ++ ys)
  remove_block-IsFreeList [] ys bp l =
      let nn : Node (head_or t ys) = head_or-satisfies Node t ys l.end_node l.nodes.1 in
      rw (remove_block-first bp l.links.0, l.links.1)
        (record {
          start = refl;
          links =
              splice Node h.bytes (set_prev_free (head_or t ys) 0 h.bytes) t (head_or t ys) 0
                (λ y ny. prev-set_prev places h.bytes (head_or t ys) y 0 nn ny (omega arith))
                (λ y ny. ground (
                  arith,
                  next-set_prev places h.bytes (head_or t ys) y 0 nn ny (omega arith),
                  places.not_null y ny,
                ))
                0 bp [] ys l.links refl refl l.nodes l.end_node l.distinct
                (ne_zero (bp ∷ ys) l.nodes);
          nodes = l.nodes.1;
          end_node = l.end_node;
          distinct = l.distinct.2;
        })
  remove_block-IsFreeList (w ∷ xs) ys bp l =
      let a = head_or t ys in
      let p = last_or w xs in
      let at = Links-at h.bytes t w bp xs ys l.links.2 in
      let behind = All-append_right Node xs (bp ∷ ys) l.nodes.1 in
      let na : Node a = head_or-satisfies Node t ys l.end_node behind.1 in
      let np : Node p =
        last_or-satisfies Node w xs l.nodes.0 (All-append_left Node xs (bp ∷ ys) l.nodes.1) in
      let m1 = set_next_free p a h.bytes in
      let ha = places.fits a na in
      let hp = places.fits p np in
      rw
        (remove_block-inner bp p a behind.0 np na (Distinct-last t w bp xs ys l.distinct) at.0 at.1)
        (record {
          start = l.start;
          links =
              splice Node h.bytes (set_prev_free a p m1) t a p
                (λ y ny.
                  prev-set_prev places m1 a y p na ny hp
                  ∙ rw (prev-set_next places h.bytes p y a np ny ha) refl)
                (λ y ny.
                  next-set_prev places m1 a y p na ny hp
                  ∙ next-set_next places h.bytes p y a np ny ha)
                0 bp (w ∷ xs) ys l.links refl refl l.nodes l.end_node l.distinct
                (ne_zero (w ∷ xs ++ bp ∷ ys) l.nodes);
          nodes = All-remove Node bp (w ∷ xs) ys l.nodes;
          end_node = l.end_node;
          distinct = Distinct-remove t bp (w ∷ xs) ys l.distinct;
        })
