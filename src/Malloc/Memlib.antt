-- ===== src/Malloc/Memlib.antt =====
-- lab6-malloclab/memlib.c: the break of a simulated heap. `mem_init` takes what `malloc` returned
-- for the storage; the bytes themselves are in the state of the allocator.
pub mod Laws
use computer_systems_labs.Base.{
  ℕ, ◌+◌, ◌-◌, ◌*◌, ◌^◌, ◌<◌, Option, none, some, ltb, leb, ◌==◌, if◌then◌else◌, ◌||◌, word_mod,
  sign_bit,
}

pub record Brk : Type 0 where
  pub mem_start_brk : ℕ
  pub mem_brk : ℕ
  pub mem_max_addr : ℕ

-- 200 MB
abbrev pub max_heap : ℕ
max_heap = 200 * 2 ^ 20

-- `none` where `malloc` returns NULL and the program exits.
unfoldable pub mem_init : ℕ → Option Brk
mem_init storage =
    if storage == 0
    then none
    else some
        (record { mem_start_brk = storage; mem_brk = storage; mem_max_addr = storage + max_heap })

unfoldable pub mem_reset_brk : Brk → Brk
mem_reset_brk b = record b { mem_brk = b.mem_start_brk }

-- The argument is an `int`, and `none` stands for the result `(void *)-1`.
unfoldable pub mem_sbrk : ℕ → Brk → Option ℕ × Brk
mem_sbrk incr b =
    if leb sign_bit incr || ltb b.mem_max_addr (b.mem_brk + incr)
    then (none, b)
    else (some b.mem_brk, record b { mem_brk = b.mem_brk + incr })

unfoldable pub mem_heap_lo : Brk → ℕ
mem_heap_lo b = b.mem_start_brk

unfoldable pub mem_heap_hi : Brk → ℕ
mem_heap_hi b = b.mem_brk - 1

unfoldable pub mem_heapsize : Brk → ℕ
mem_heapsize b = b.mem_brk - b.mem_start_brk
