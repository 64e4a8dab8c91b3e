-- ===== src/Malloc/Invariant/Members.antt =====
-- Which addresses have a free block, and how freeing one block changes that.
use computer_systems_labs.Base.{
  ℕ, ◌+◌, ◌-◌, ◌≤◌, ◌<◌, ◌≡◌, refl, arith, Bool, true, false, ◌==◌, ◌||◌, ◌&&◌, List, [], ◌∷◌,
}
use computer_systems_labs.Malloc.Bytes.{Bytes}
use computer_systems_labs.Malloc.Blocks.{Block, Forward, Backward, free_forward, free_backward}
use computer_systems_labs.Malloc.Blocks.Links.{has}

pub free_backward-below :
    (m : Bytes) (s p y : ℕ) (bs : List Block)
    → Backward m s bs p
    → p ≤ y
    → free_backward p bs y ≡ false
free_backward-below m s p y [] f far = refl
free_backward-below m s p y (b ∷ bs) f far =
    let least = f.1.least in
    ground (arith, f.0, least, free_backward-below m s (p - b.size) y bs f.2 (omega (far, arith)))

pub free_forward-above :
    (m : Bytes) (p e y : ℕ) (bs : List Block)
    → Forward m p bs e
    → y < p
    → free_forward p bs y ≡ false
free_forward-above m p e y [] f far = refl
free_forward-above m p e y (b ∷ bs) f far =
    ground (arith, free_forward-above m (p + b.size) e y bs f.1 (omega (far, arith)))

-- One more element, on both sides.
pub join_member :
    (b f : Bool) (y p : ℕ) (xs : List ℕ)
    → has y xs ≡ (b || f)
    → has y (p ∷ xs) ≡ (b || ((y == p && true) || f))
join_member b f y p xs e = ground (arith, e)
