-- ===== src/Malloc/Blocks.antt =====
-- The heap of mm.c as a row of blocks without gaps, each with its size and the same tag at both ends.
-- A row is seen from an address `p`: the blocks before it, nearest first, and those from it on.
pub mod Places
pub mod Quiet
pub mod Tagging
pub mod Links
use computer_systems_labs.Base.{
  ℕ, ◌+◌, ◌-◌, ◌≤◌, ◌<◌, ◌≡◌, ◌⊎◌, Bool, true, false, ◌&&◌, ◌||◌, not, ◌==◌, List, [], ◌∷◌,
}
use computer_systems_labs.Malloc.Bytes.{Bytes}
use computer_systems_labs.Malloc.Tags.{get}
use computer_systems_labs.Malloc.Tags.Laws.{IsSize}

pub record Block : Type 0 where
  pub size : ℕ
  pub used : Bool

abbrev pub block : ℕ → Bool → Block
block n u = record { size = n; used = u }

abbrev pub bit : Bool → ℕ
bit true = 1
bit false = 0

abbrev pub tag : Block → ℕ
tag b = b.size + bit b.used

-- The block `b` has its payload at `p`.
pub record IsBlock (m : Bytes) (p : ℕ) (b : Block) : Type 0 where
  pub sized : IsSize b.size
  pub least : 24 ≤ b.size
  pub header : get (p - 4) m ≡ tag b
  pub footer : get (p + b.size - 8) m ≡ tag b

-- From `p` the blocks `bs` lead up to `e`.
abbrev pub Forward : Bytes → ℕ → List Block → ℕ → Type 0
Forward m p [] e = p ≡ e
Forward m p (b ∷ bs) e = IsBlock m p b × Forward m (p + b.size) bs e

-- From `p` the blocks `bs` lead down to `s`.
abbrev pub Backward : Bytes → ℕ → List Block → ℕ → Type 0
Backward m s [] p = p ≡ s
Backward m s (b ∷ bs) p = (s + b.size ≤ p) × IsBlock m (p - b.size) b × Backward m s bs (p - b.size)

-- The addresses of the blocks.
abbrev pub AtForward : ℕ → List Block → ℕ → Type 0
AtForward p [] y = ⊥
AtForward p (b ∷ bs) y = (y ≡ p) ⊎ AtForward (p + b.size) bs y

abbrev pub AtBackward : ℕ → List Block → ℕ → Type 0
AtBackward p [] y = ⊥
AtBackward p (b ∷ bs) y = (y ≡ p - b.size) ⊎ AtBackward (p - b.size) bs y

-- Whether a free block stands at `y`.
abbrev pub free_forward : ℕ → List Block → ℕ → Bool
free_forward p [] y = false
free_forward p (b ∷ bs) y = (y == p && not b.used) || free_forward (p + b.size) bs y

abbrev pub free_backward : ℕ → List Block → ℕ → Bool
free_backward p [] y = false
free_backward p (b ∷ bs) y = (y == p - b.size && not b.used) || free_backward (p - b.size) bs y

-- Where links may stand: the prologue `t` and the blocks.
abbrev pub Node : ℕ → List Block → ℕ → List Block → ℕ → Type 0
Node t ls p rs y = (y ≡ t) ⊎ AtBackward p ls y ⊎ AtForward p rs y

pub record Tiles (m : Bytes) (s e : ℕ) (ls : List Block) (p : ℕ) (rs : List Block) : Type 0 where
  pub back : Backward m s ls p
  pub front : Forward m p rs e
