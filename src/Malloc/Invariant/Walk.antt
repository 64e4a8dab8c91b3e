-- ===== src/Malloc/Invariant/Walk.antt =====
-- The blocks of a heap of mm.c are found by a walk over their tags, and there is one such walk.
use mathlib.Core.Path.{subst}
use computer_systems_labs.Base.{
  ℕ, ◌+◌, ◌-◌, ◌<◌, ◌≡◌, refl, sym, ap, ◌∙◌, arith, Bool, true, false, List, [], ◌∷◌,
}
use computer_systems_labs.Malloc.Bytes.{Bytes}
use computer_systems_labs.Malloc.Heap.{Heap}
use computer_systems_labs.Malloc.Blocks.{Block, block, bit, Tiles, IsBlock, Forward, Backward}
use computer_systems_labs.Malloc.Blocks.Places.{Forward-le}
use computer_systems_labs.Malloc.Invariant.{first}
use computer_systems_labs.Malloc.Invariant.Views.{IsViewed, view_next, view_prev}

-- The blocks of `ls`, nearest first, in front of `rs`.
abbrev pub joined : List Block → List Block → List Block
joined [] rs = rs
joined (b ∷ ls) rs = joined ls (b ∷ rs)

bit-inj : (u v : Bool) → bit u ≡ bit v → u ≡ v
bit-inj true true e = refl
bit-inj false false e = refl
bit-inj true false e = ground (arith, e)
bit-inj false true e = ground (arith, e)

same_block : (m : Bytes) (p : ℕ) (b c : Block) → IsBlock m p b → IsBlock m p c → b ≡ c
same_block m p b c x y =
    let e = sym x.header ∙ y.header in
    let small_b = bit-lt b.used in
    let small_c = bit-lt c.used in
    let es = x.sized.eights in
    let et = y.sized.eights in
    let sizes : b.size ≡ c.size = omega (e, small_b, small_c, es, et, arith) in
    let bits : bit b.used ≡ bit c.used = omega (e, sizes, arith) in
    ap (λ k. block k b.used) sizes ∙ ap (λ u. block c.size u) (bit-inj b.used c.used bits)
  where
    bit-lt : (u : Bool) → bit u < 2
    bit-lt true = omega arith
    bit-lt false = omega arith

Forward-unique :
    (m : Bytes) (p e : ℕ) (bs cs : List Block) → Forward m p bs e → Forward m p cs e → bs ≡ cs
Forward-unique m p e [] [] x y = refl
Forward-unique m p e [] (c ∷ cs) x y =
    let far = Forward-le m (p + c.size) e cs y.1 in
    let least = y.0.least in ground (arith, x, far, least)
Forward-unique m p e (b ∷ bs) [] x y =
    let far = Forward-le m (p + b.size) e bs x.1 in
    let least = x.0.least in ground (arith, y, far, least)
Forward-unique m p e (b ∷ bs) (c ∷ cs) x y =
    let same = same_block m p b c x.0 y.0 in
    let rest =
      Forward-unique m (p + b.size) e bs cs x.1
        (subst (λ d. Forward m (p + d.size) cs e) (sym same) y.1) in
    ap (λ d. d ∷ bs) same ∙ ap (λ ds. c ∷ ds) rest

joined-Forward :
    (m : Bytes) (s p e : ℕ) (ls rs : List Block)
    → Backward m s ls p
    → Forward m p rs e
    → Forward m s (joined ls rs) e
joined-Forward m s p e [] rs back front = subst (λ q. Forward m q rs e) back front
joined-Forward m s p e (b ∷ ls) rs back front =
    let there : p - b.size + b.size ≡ p = omega (back.0, arith) in
    joined-Forward m s (p - b.size) e ls (b ∷ rs) back.2
      (back.1, subst (λ q. Forward m q rs e) (sym there) front)

view_start :
    (h : Heap) (ls : List Block) (p : ℕ) (rs : List Block)
    → IsViewed h ls p rs
    → IsViewed h [] (first h) (joined ls rs)
view_start h [] p rs viewed = subst (λ q. IsViewed h [] q rs) (viewed.0.tiles.back) viewed
view_start h (b ∷ ls) p rs viewed =
    view_start h ls (p - b.size) (b ∷ rs) (view_prev h ls p b rs viewed)

view_along :
    (h : Heap) (ls : List Block) (p : ℕ) (rs : List Block)
    → Backward h.bytes (first h) ls p
    → IsViewed h [] (first h) (joined ls rs)
    → IsViewed h ls p rs
view_along h [] p rs back viewed = subst (λ q. IsViewed h [] q rs) (sym back) viewed
view_along h (b ∷ ls) p rs back viewed =
    let there : p - b.size + b.size ≡ p = omega (back.0, arith) in
    subst (λ q. IsViewed h (b ∷ ls) q rs) there
      (view_next h ls (p - b.size) b rs (view_along h ls (p - b.size) (b ∷ rs) back.2 viewed))

-- A heap with the invariant has it from every place that the tags lead to.
pub view_from :
    (h : Heap) (ls ms : List Block) (p q : ℕ) (rs ss : List Block)
    → IsViewed h ls p rs
    → Tiles h.bytes (first h) h.brk.mem_brk ms q ss
    → IsViewed h ms q ss
view_from h ls ms p q rs ss viewed tiles =
    let start = view_start h ls p rs viewed in
    let other = joined-Forward h.bytes (first h) q h.brk.mem_brk ms ss tiles.back tiles.front in
    let same =
      Forward-unique h.bytes (first h) h.brk.mem_brk (joined ls rs) (joined ms ss)
        start.0.tiles.front other in
    view_along h ms q ss tiles.back (subst (λ bs. IsViewed h [] (first h) bs) same start)
