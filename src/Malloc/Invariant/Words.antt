-- ===== src/Malloc/Invariant/Words.antt =====
-- The words that `mm_init` of mm.c stores, one after the other.
use mathlib.Core.Path.{subst, fun_ext}
use computer_systems_labs.Base.{ℕ, ◌+◌, ◌*◌, ◌^◌, ◌<◌, ◌≡◌, refl, sym, ◌∙◌, arith}
use computer_systems_labs.Malloc.Bytes.{Bytes, update, read, write}
use computer_systems_labs.Malloc.Bytes.Laws.{Apart, read-write_self}
use computer_systems_labs.Malloc.Heap.{Heap}
use computer_systems_labs.Malloc.Tags.{put, get, pack, hdrp}
use computer_systems_labs.Malloc.Tags.Laws.{IsSize, get-put, get-put_elsewhere}
use computer_systems_labs.Malloc.Alloc.{put_word, set_tags}

-- A store over a store.
put_again_at : (p v w a : ℕ) (m : Bytes) → put p v (put p w m) a ≡ put p v m a
unfolding put write update
put_again_at p v w a m = ground arith

put_again : (p v w : ℕ) (m : Bytes) → put p v (put p w m) ≡ put p v m
put_again p v w m = fun_ext (λ a. put_again_at p v w a m)

pub over : {q w : ℕ} (p v : ℕ) (m : Bytes) → Apart 4 p 4 q → get q m ≡ w → get q (put p v m) ≡ w
over {q} {w} p v m apart before = get-put_elsewhere q p v m apart ∙ before

pub zero_at : {q : ℕ} (p : ℕ) (m : Bytes) → q ≡ p → get q (put p 0 m) ≡ 0
unfolding get put
zero_at {q} p m same =
    subst (λ a. read 4 a (write 4 p 0 m) ≡ 0) (sym same) (read-write_self 4 p 0 m)

pub tag_at :
    {q : ℕ} (p size alloc : ℕ) (m : Bytes)
    → IsSize size
    → alloc < 2
    → q ≡ p
    → get q (put p (pack size alloc) m) ≡ size + alloc
tag_at {q} p size alloc m sized bit same =
    subst (λ a. get a (put p (pack size alloc) m) ≡ size + alloc) (sym same)
      (get-put p size alloc m sized bit)

pub read_pair : (p : ℕ) (m : Bytes) → read 8 p m ≡ get p m + 2 ^ 32 * get (p + 4) m
unfolding read get
read_pair p m = let four : p + 1 + 1 + 1 + 1 ≡ p + 4 = omega arith in rw (four) (omega arith)

pub set_tags_again :
    (bp n alloc w : ℕ) (h : Heap)
    → set_tags bp n alloc (put_word (hdrp bp) w h) ≡ set_tags bp n alloc h
unfolding set_tags put_word
set_tags_again bp n alloc w h = rw (put_again (hdrp bp) (pack n alloc) w h.bytes) refl
