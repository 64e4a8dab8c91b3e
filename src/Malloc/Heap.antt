-- ===== src/Malloc/Heap.antt =====
-- The state of the allocator of mm.c: the bytes, the break of memlib.c and its two globals.
use computer_systems_labs.Base.{ℕ}
use computer_systems_labs.Malloc.Bytes.{Bytes}
use computer_systems_labs.Malloc.Memlib.{Brk}

pub record Heap : Type 0 where
  pub bytes : Bytes
  pub brk : Brk
  pub heap_listp : ℕ
  pub free_listp : ℕ
