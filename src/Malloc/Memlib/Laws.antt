-- ===== src/Malloc/Memlib/Laws.antt =====
-- The break stays inside the storage and only grows.
use computer_systems_labs.Base.{ℕ, ◌+◌, ◌≤◌, ◌<◌, ◌≡◌, ◌↔◌, some, arith, sign_bit}
use computer_systems_labs.Malloc.Memlib.{Brk, mem_init, mem_reset_brk, mem_sbrk, max_heap}

-- A break in the storage, which has the size that `mem_init` asks for.
pub record IsBrk (b : Brk) : Type 0 where
  pub above : b.mem_start_brk ≤ b.mem_brk
  pub below : b.mem_brk ≤ b.mem_max_addr
  pub room : b.mem_max_addr ≡ b.mem_start_brk + max_heap
  pub not_null : 0 < b.mem_start_brk

pub mem_init-IsBrk : (storage : ℕ) {b : Brk} → mem_init storage ≡ some b → IsBrk b
unfolding mem_init
mem_init-IsBrk storage e = ground arith

pub mem_reset_brk-IsBrk : {b : Brk} → IsBrk b → IsBrk (mem_reset_brk b)
unfolding mem_reset_brk
mem_reset_brk-IsBrk i = ground arith

-- From a break inside the storage, `mem_sbrk` leaves the break inside the storage.
pub mem_sbrk-IsBrk : (incr : ℕ) {b : Brk} → IsBrk b → IsBrk (mem_sbrk incr b).1
unfolding mem_sbrk
mem_sbrk-IsBrk incr i = ground arith

-- `mem_sbrk` returns `p` exactly when the request is not negative as an `int`, fits the storage,
-- and `p` is the old break.
pub mem_sbrk_lem :
    (incr p : ℕ) (b : Brk)
    → ((mem_sbrk incr b).0 ≡ some p)
      ↔ ((incr < sign_bit) × (b.mem_brk + incr ≤ b.mem_max_addr) × (p ≡ b.mem_brk))
unfolding mem_sbrk
mem_sbrk_lem incr p b = ground arith
