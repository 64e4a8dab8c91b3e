-- ===== src/Malloc/Tags/Laws.antt =====
-- A tag gives back the size and the bit that were packed into it.
use computer_systems_labs.Base.{
  ℕ, zero, suc, ◌+◌, ◌-◌, ◌/◌, ◌%◌, ◌<◌, ◌≡◌, refl, arith, bit_and, bit_or, word_mod,
}
use computer_systems_labs.Base.Bits.{bit_and_step, bit_or_step}
use computer_systems_labs.Base.Bits.Laws.{bit_and-zero, bit_or-zero, bit_and-ones}
use computer_systems_labs.Malloc.Bytes.{Bytes, read}
use computer_systems_labs.Malloc.Bytes.Laws.{read-write_self, read-write_elsewhere, Apart}
use computer_systems_labs.Malloc.Tags.{size_mask, pack, get, put, get_size, get_alloc}

-- Sizes are multiples of 8 that fit a word.
pub record IsSize (size : ℕ) : Type 0 where
  pub fits : size < word_mod
  pub eights : size % 8 ≡ 0

pub bit_and-one : (x : ℕ) → x < word_mod → bit_and x 1 ≡ x % 2
bit_and-one x h = omega (arith, bit_and_step x 1, bit_and-zero 32 (x / 2) (omega arith))

pub bit_and-size_mask : (x : ℕ) → x < word_mod → bit_and x size_mask ≡ x - x % 8
bit_and-size_mask x h = omega (
  arith,
  bit_and_step x size_mask,
  bit_and_step (x / 2) 0x7fff_fffc,
  bit_and_step (x / 2 / 2) 0x3fff_fffe,
  bit_and-ones 29 (x / 2 / 2 / 2) (omega arith),
)

bit_or-low : (size alloc : ℕ) → IsSize size → alloc < 2 → bit_or size alloc ≡ size + alloc
bit_or-low size zero s h = rw (bit_or-zero 32 size s.fits) (omega arith)
bit_or-low size (suc zero) s h =
    omega (arith, bit_or_step size 1, bit_or-zero 32 (size / 2) (omega arith))
bit_or-low size (suc (suc n)) s h = absurd (omega arith)

pub pack_lem : (size alloc : ℕ) → IsSize size → alloc < 2 → pack size alloc ≡ size + alloc
unfolding pack
pack_lem size alloc s h =
    rw (bit_and-one alloc (omega arith), whole, digit, bit_or-low size alloc s h) refl
  where
    whole : size % word_mod ≡ size
    whole = omega arith

    digit : alloc % 2 ≡ alloc
    digit = omega arith

module _ (p size alloc : ℕ) (m : Bytes) (s : IsSize size) (bit : alloc < 2) where
  pub get-put : get p (put p (pack size alloc) m) ≡ size + alloc
  unfolding get put
  get-put = rw (read-write_self 4 p (pack size alloc) m, pack_lem size alloc s bit) (ground arith)

  -- After `PUT` of a packed size, a multiple of 8 that fits a word, and of an allocation bit,
  -- `GET_SIZE` reads the size and `GET_ALLOC` the bit.
  pub tag-put :
      (get_size p (put p (pack size alloc) m) ≡ size)
      × (get_alloc p (put p (pack size alloc) m) ≡ alloc)
  unfolding get_size get_alloc
  tag-put =
      rw
        (
          get-put,
          bit_and-size_mask (size + alloc) (omega arith),
          bit_and-one (size + alloc) (omega arith),
        )
        (omega arith)

module _ (k q p v : ℕ) (m : Bytes) (apart : Apart 4 p k q) where
  -- A store into a tag leaves what stands elsewhere.
  pub read-put : read k q (put p v m) ≡ read k q m
  unfolding put
  read-put = read-write_elsewhere k q 4 p v m apart

module _ (q p v : ℕ) (m : Bytes) (apart : Apart 4 p 4 q) where
  pub get-put_elsewhere : get q (put p v m) ≡ get q m
  unfolding get
  get-put_elsewhere = read-put 4 q p v m apart

  pub get_size-put_elsewhere : get_size q (put p v m) ≡ get_size q m
  unfolding get_size
  get_size-put_elsewhere = rw get-put_elsewhere refl

  pub get_alloc-put_elsewhere : get_alloc q (put p v m) ≡ get_alloc q m
  unfolding get_alloc
  get_alloc-put_elsewhere = rw get-put_elsewhere refl
