-- ===== src/Malloc/Bytes.antt =====
-- Memory as bytes by address. A word of 4 bytes and a pointer of 8 are stored with their lowest
-- byte first, as on the x86-64 machines that the lab runs on.
pub mod Laws
use computer_systems_labs.Base.{ℕ, zero, suc, ◌+◌, ◌*◌, ◌/◌, ◌%◌, ◌==◌, if◌then◌else◌}

abbrev pub Bytes : Type 0
Bytes = ℕ → ℕ

unfoldable pub update : ℕ → ℕ → Bytes → Bytes
update p b m a = if a == p then b else m a

-- The number in the `n` bytes from `p`, and the same bytes after a store of `v`.
unfoldable pub read : ℕ → ℕ → Bytes → ℕ
read zero p m = 0
read (suc n) p m = m p % 256 + 256 * read n (p + 1) m

unfoldable pub write : ℕ → ℕ → ℕ → Bytes → Bytes
write zero p v m = m
write (suc n) p v m = write n (p + 1) (v / 256) (update p (v % 256) m)

-- `memcpy(dst, src, n)` for areas that do not overlap.
unfoldable pub copy : ℕ → ℕ → ℕ → Bytes → Bytes
copy zero dst src m = m
copy (suc n) dst src m = copy n (dst + 1) (src + 1) (update dst (m src) m)

-- `memset(p, v, n)`
unfoldable pub fill : ℕ → ℕ → ℕ → Bytes → Bytes
fill zero p v m = m
fill (suc n) p v m = fill n (p + 1) v (update p (v % 256) m)
