-- ===== src/Malloc/Blocks/Links.antt =====
-- Taking a block out of the free list, or putting one in, writes only places for links.
use computer_systems_labs.Base.{
  ℕ, ◌+◌, ◌≡◌, ◌≢◌, inl, inr, refl, ap, ◌∙◌, arith, Bool, true, false, Bool-cases, ◌==◌, ◌&&◌, ◌||◌,
  not, List, [], ◌∷◌, ◌++◌, All,
}
use computer_systems_labs.Malloc.Bytes.{Bytes}
use computer_systems_labs.Malloc.Bytes.Laws.{write_outside}
use computer_systems_labs.Malloc.Heap.{Heap}
use computer_systems_labs.Malloc.Tags.{set_next_free, set_prev_free}
use computer_systems_labs.Malloc.FreeList.{insert_block, remove_block}
use computer_systems_labs.Malloc.FreeList.Links.{head_or, last_or, Distinct, Places}
use computer_systems_labs.Malloc.FreeList.Operations.{
  IsFreeList, remove_block-first, remove_block-inner,
}
use computer_systems_labs.Malloc.FreeList.Splice.{
  All-append_left, All-append_right, head_or-satisfies, last_or-satisfies, Links-at, Distinct-last,
}
use computer_systems_labs.Malloc.Blocks.Quiet.{Quiet}

module _ (Place : ℕ → Type 0) (m : Bytes) (x v : ℕ) (hx : Place x) where
  set_next-Quiet : Quiet Place m (set_next_free x v m)
  unfolding set_next_free
  set_next-Quiet a out = write_outside 8 (x + 8) v a m (ground (arith, out x hx))

  set_prev-Quiet : Quiet Place m (set_prev_free x v m)
  unfolding set_prev_free
  set_prev-Quiet a out = write_outside 8 x v a m (ground (arith, out x hx))

pub insert_block-Quiet :
    (Place : ℕ → Type 0) (bp : ℕ) (h : Heap)
    → Place bp
    → Place h.free_listp
    → Quiet Place h.bytes (insert_block bp h).bytes
unfolding insert_block
insert_block-Quiet Place bp h hb hs a out =
    let start = h.free_listp in
    let m1 = set_next_free bp start h.bytes in
    let m2 = set_prev_free start bp m1 in
    set_prev-Quiet Place m2 bp 0 hb a out
    ∙ (set_prev-Quiet Place m1 start bp hs a out ∙ set_next-Quiet Place h.bytes bp start hb a out)

pub remove_block-Quiet :
    (Place : ℕ → Type 0) (places : Places Place) (t : ℕ) (h : Heap) (xs ys : List ℕ) (bp : ℕ)
    → IsFreeList Place t h (xs ++ bp ∷ ys)
    → Quiet Place h.bytes (remove_block bp h).bytes
remove_block-Quiet Place places t h [] ys bp l a out =
    let na : Place (head_or t ys) = head_or-satisfies Place t ys l.end_node l.nodes.1 in
    rw (remove_block-first places t h bp l.links.0, l.links.1)
      (set_prev-Quiet Place h.bytes (head_or t ys) 0 na a out)
remove_block-Quiet Place places t h (w ∷ xs) ys bp l a out =
    let after = head_or t ys in
    let before = last_or w xs in
    let at = Links-at h.bytes t w bp xs ys l.links.2 in
    let behind = All-append_right Place xs (bp ∷ ys) l.nodes.1 in
    let na : Place after = head_or-satisfies Place t ys l.end_node behind.1 in
    let np : Place before =
      last_or-satisfies Place w xs l.nodes.0 (All-append_left Place xs (bp ∷ ys) l.nodes.1) in
    rw
      (remove_block-inner places t h bp before after behind.0 np na
        (Distinct-last t w bp xs ys l.distinct) at.0 at.1)
      (set_prev-Quiet Place (set_next_free before after h.bytes) after before na a out
        ∙ set_next-Quiet Place h.bytes before after np a out)

-- Membership, as a test.
abbrev pub has : ℕ → List ℕ → Bool
has y [] = false
has y (x ∷ xs) = y == x || has y xs

pub All-of_has : (P : ℕ → Type 0) (xs : List ℕ) → ((y : ℕ) → has y xs ≡ true → P y) → All P xs
All-of_has P [] h = tt
All-of_has P (x ∷ xs) h = (h x (ground arith), All-of_has P xs (λ y i. h y (ground (arith, i))))

pub All-ne_of_not_has : (x : ℕ) (xs : List ℕ) → has x xs ≡ false → All (λ y. x ≢ y) xs
All-ne_of_not_has x [] h = tt
All-ne_of_not_has x (z ∷ xs) h = (ground arith, All-ne_of_not_has x xs (ground arith))

not_has-of_ne : (x : ℕ) (xs : List ℕ) → All (λ y. x ≢ y) xs → has x xs ≡ false
not_has-of_ne x [] h = refl
not_has-of_ne x (z ∷ xs) h = ground (arith, not_has-of_ne x xs h.1)

-- An element cuts the list in two.
pub split_at :
    (x : ℕ) (xs : List ℕ)
    → has x xs ≡ true
    → (before : List ℕ) × (after : List ℕ) × (xs ≡ before ++ x ∷ after)
split_at x [] h = cc
split_at x (z ∷ xs) h = elim (Bool-cases (x == z)) [
  | inl same ↦ ([], xs, ground (arith, same))
  | inr other ↦
      let rest = split_at x xs (ground (arith, other)) in
      (z ∷ rest.0, rest.1, ap (λ l. z ∷ l) rest.2)
]

-- What is left without it.
pub has-remove :
    (t x y : ℕ) (before after : List ℕ)
    → Distinct t (before ++ x ∷ after)
    → has y (before ++ after) ≡ (not (y == x) && has y (before ++ x ∷ after))
has-remove t x y [] after d = ground (arith, not_has-of_ne x after d.1)
has-remove t x y (z ∷ before) after d =
    let other = (All-append_right (λ w. z ≢ w) before (x ∷ after) d.1).0 in
    ground (arith, other, has-remove t x y before after d.2)
