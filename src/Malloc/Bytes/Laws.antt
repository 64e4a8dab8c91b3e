-- ===== src/Malloc/Bytes/Laws.antt =====
-- What a load gives after a store: the stored number, or what was there before.
use computer_systems_labs.Base.{
  ℕ, zero, suc, ◌+◌, ◌*◌, ◌/◌, ◌%◌, ◌^◌, ◌≤◌, ◌<◌, ◌≡◌, ◌⊎◌, inl, refl, arith,
}
use native.Mathlib.Nat.{pow-succ', mod-eq-sub-mul-div, div-div-eq-div-mul, mul-div-le}
use computer_systems_labs.Malloc.Bytes.{Bytes, update, read, write}

-- The `n` bytes from `p` and the `k` bytes from `q` have none in common.
abbrev pub Apart : ℕ → ℕ → ℕ → ℕ → Type 0
Apart n p k q = (p + n ≤ q) ⊎ (q + k ≤ p)

mod_bytes_suc : (n v : ℕ) → v % 256 ^ suc n ≡ v % 256 + 256 * (v / 256 % 256 ^ n)
mod_bytes_suc n v =
    rw
      (
        mod-eq-sub-mul-div v (256 ^ suc n),
        pow-succ' 256 n,
        ← div-div-eq-div-mul v 256 (256 ^ n),
        mod-eq-sub-mul-div (v / 256) (256 ^ n),
      )
      (omega (arith, mul-div-le (v / 256) (256 ^ n)))

pub read-lt : (n p : ℕ) (m : Bytes) → read n p m < 256 ^ n
unfolding read
read-lt zero p m = omega arith
read-lt (suc n) p m = omega (arith, pow-succ' 256 n, read-lt n (p + 1) m)

-- A store leaves every other byte alone.
pub write_outside : (n p v a : ℕ) (m : Bytes) → (a < p) ⊎ (p + n ≤ a) → write n p v m a ≡ m a
unfolding write update
write_outside zero p v a m o = refl
write_outside (suc n) p v a m o =
    ground (arith, write_outside n (p + 1) (v / 256) a (update p (v % 256) m))

pub read_ext :
    (n p : ℕ) (m m' : Bytes) → ((a : ℕ) → p ≤ a → a < p + n → m a ≡ m' a) → read n p m ≡ read n p m'
unfolding read
read_ext zero p m m' h = refl
read_ext (suc n) p m m' h =
    rw
      (
        h p (omega arith) (omega arith),
        read_ext n (p + 1) m m' (λ a l u. h a (omega arith) (omega arith)),
      )
      refl

pub read-write_elsewhere :
    (k q n p v : ℕ) (m : Bytes) → Apart n p k q → read k q (write n p v m) ≡ read k q m
read-write_elsewhere k q n p v m o =
    read_ext k q _ _ (λ a l u. write_outside n p v a m (ground arith))

pub read-write_self : (n p v : ℕ) (m : Bytes) → read n p (write n p v m) ≡ v % 256 ^ n
unfolding read write update
read-write_self zero p v m = omega arith
read-write_self (suc n) p v m =
    rw
      (
        write_outside n (p + 1) (v / 256) p (update p (v % 256) m) (inl (omega arith)),
        read-write_self n (p + 1) (v / 256) (update p (v % 256) m),
        mod_bytes_suc n v,
      )
      (ground arith)
