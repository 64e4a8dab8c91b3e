-- ===== src/Shell/Line.antt =====
-- helper-routines.cc: `parseline`. A text is the list of its codes up to the end, and `argv` the list of
-- the arguments before the NULL.
pub mod Laws
pub mod Quoted
use computer_systems_labs.Base.{
  ℕ, zero, suc, ◌+◌, Bool, true, false, Option, none, some, List, [], ◌∷◌, length, ◌==◌,
  if◌then◌else◌,
}

-- `buf[strlen(buf)-1] = ' '`; on an empty text, which `fgets` does not give, it writes before the array.
unfoldable pub replace_last : List ℕ → List ℕ
replace_last [] = []
replace_last (c ∷ []) = b' ' ∷ []
replace_last (c ∷ d ∷ s) = c ∷ replace_last (d ∷ s)

unfoldable pub skip_spaces : List ℕ → List ℕ
skip_spaces [] = []
skip_spaces (c ∷ s) = if c == b' ' then skip_spaces s else c ∷ s

-- `delim = strchr(buf, c)`: what stands before the first `c` and what stands behind it.
unfoldable pub split_at : ℕ → List ℕ → Option (List ℕ × List ℕ)
split_at c [] = none
split_at c (d ∷ s) =
    if d == c
    then some ([], s)
    else elim (split_at c s) [ none ↦ none | some (before, behind) ↦ some (d ∷ before, behind) ]

unfoldable pub next_token : List ℕ → Option (List ℕ × List ℕ)
next_token [] = none
next_token (c ∷ s) = if c == b'\'' then split_at b'\'' s else split_at b' ' (c ∷ s)

-- The loop that fills `argv`, with a bound on its rounds.
unfoldable pub build_argv : ℕ → List ℕ → Option (List (List ℕ))
build_argv zero s = none
build_argv (suc rounds) s = elim (next_token (skip_spaces s)) [
  | none ↦ some []
  | some (token, rest) ↦ elim (build_argv rounds rest) [
    | none ↦ none
    | some argv ↦ some (token ∷ argv)
  ]
]

-- `*arg == c`, where an empty argument has only its end.
unfoldable pub starts_with : ℕ → List ℕ → Bool
starts_with c [] = false
starts_with c (d ∷ s) = d == c

-- The value returned: 1 without an argument, and otherwise whether the last one starts with `&`.
unfoldable pub is_background : List (List ℕ) → Bool
is_background [] = true
is_background (arg ∷ []) = starts_with b'&' arg
is_background (arg ∷ next ∷ args) = is_background (next ∷ args)

unfoldable pub drop_last : List (List ℕ) → List (List ℕ)
drop_last [] = []
drop_last (arg ∷ []) = []
drop_last (arg ∷ next ∷ args) = arg ∷ drop_last (next ∷ args)

unfoldable pub parseline : List ℕ → Option (List (List ℕ) × Bool)
parseline cmdline =
    let buf = replace_last cmdline in
    elim (build_argv (suc (length buf)) buf) [
      | none ↦ none
      | some argv ↦ if is_background argv then some (drop_last argv, true) else some (argv, false)
    ]
