-- ===== src/Shell/Line/Laws.antt =====
-- helper-routines.cc: `parseline` ends, and what is quoted comes back.
use computer_systems_labs.Base.{
  ℕ, zero, suc, ◌+◌, ◌*◌, ◌≤◌, ◌<◌, ◌≡◌, inl, inr, refl, ap, Bool, true, false, Bool-cases, some,
  Option-cases, List, [], ◌∷◌, length, ◌==◌, if◌then◌else◌, arith,
}
use computer_systems_labs.Shell.Line.{
  replace_last, skip_spaces, split_at, next_token, build_argv, starts_with, is_background,
  drop_last, parseline,
}

length-skip_spaces : (s : List ℕ) → length (skip_spaces s) ≤ length s
unfolding skip_spaces
length-skip_spaces [] = omega arith
length-skip_spaces (c ∷ s) = ground (arith, length-skip_spaces s)

length-split_at :
    (c : ℕ) (s before behind : List ℕ)
    → split_at c s ≡ some (before, behind)
    → length before + length behind < length s
unfolding split_at
length-split_at c [] before behind e = ground (arith, e)
length-split_at c (d ∷ s) before behind e = elim (Option-cases (split_at c s)) [
  | inl missing ↦ ground (arith, e, missing)
  | inr ((b1, b2), found) ↦ ground (arith, e, found, length-split_at c s b1 b2 found)
]

skip_spaces-start : (s : List ℕ) → starts_with b' ' (skip_spaces s) ≡ false
unfolding skip_spaces starts_with
skip_spaces-start [] = refl
skip_spaces-start (c ∷ s) = ground (arith, skip_spaces-start s)

-- A token takes two places of the text at least.
length-next_token :
    (s token rest : List ℕ)
    → starts_with b' ' s ≡ false
    → next_token s ≡ some (token, rest)
    → 2 + length rest ≤ length s
unfolding next_token starts_with
length-next_token [] token rest h e = ground (arith, e)
length-next_token (c ∷ s) token rest h e = elim (Bool-cases (c == b'\'')) [
  | inl quoted ↦ ground (arith, e, quoted, length-split_at b'\'' s token rest)
  | inr bare ↦
      unfold split_at in
      elim (Option-cases (split_at b' ' s)) [
        | inl missing ↦ ground (arith, e, h, bare, missing)
        | inr ((b1, b2), found) ↦
            ground (arith, e, h, bare, found, length-split_at b' ' s b1 b2 found)
      ]
]

after :
    (s token rest : List ℕ)
    → next_token (skip_spaces s) ≡ some (token, rest)
    → 2 + length rest ≤ length s
after s token rest e = ground (
  arith,
  length-skip_spaces s,
  length-next_token (skip_spaces s) token rest (skip_spaces-start s) e,
)

-- As many rounds as the text has places are enough, and every argument takes two places.
pub build_argv_enough :
    (rounds : ℕ) (s : List ℕ)
    → length s < rounds
    → (argv : List (List ℕ)) × (build_argv rounds s ≡ some argv) × (2 * length argv ≤ length s)
unfolding build_argv
build_argv_enough zero s h = absurd (omega arith)
build_argv_enough (suc rounds) s h = elim (Option-cases (next_token (skip_spaces s))) [
  | inl ended ↦ ([], rw (ended, build_argv) refl, omega arith)
  | inr ((token, rest), found) ↦
      let shorter = after s token rest found in
      let (argv, built, short) = build_argv_enough rounds rest (ground (arith, h, shorter)) in
      (token ∷ argv, rw (found, built, build_argv) refl, ground (arith, shorter, short))
]

pub build_argv_more :
    (rounds more : ℕ) (s : List ℕ) (argv : List (List ℕ))
    → rounds ≤ more
    → build_argv rounds s ≡ some argv
    → build_argv more s ≡ some argv
unfolding build_argv
build_argv_more zero more s argv h e = ground (arith, e)
build_argv_more (suc rounds) zero s argv h e = absurd (omega arith)
build_argv_more (suc rounds) (suc more) s argv h e =
    elim (Option-cases (next_token (skip_spaces s))) [
      | inl ended ↦ ground (arith, e, ended)
      | inr ((token, rest), found) ↦ elim (Option-cases (build_argv rounds rest)) [
        | inl out ↦ ground (arith, e, found, out)
        | inr (args, built) ↦ ground (
          arith,
          e,
          found,
          built,
          build_argv_more rounds more rest args (ground (arith, h)) built,
        )
      ]
    ]

length-replace_last : (s : List ℕ) → length (replace_last s) ≡ length s
unfolding replace_last
length-replace_last [] = refl
length-replace_last (c ∷ []) = refl
length-replace_last (c ∷ d ∷ s) = ap suc (length-replace_last (d ∷ s))

length-drop_last : (args : List (List ℕ)) → length (drop_last args) ≤ length args
unfolding drop_last
length-drop_last [] = omega arith
length-drop_last (arg ∷ []) = omega arith
length-drop_last (arg ∷ next ∷ args) = ground (arith, length-drop_last (next ∷ args))

-- The result, from the arguments that the loop finds.
pub parseline-build_argv :
    (cmdline : List ℕ) (argv : List (List ℕ))
    → build_argv (suc (length (replace_last cmdline))) (replace_last cmdline) ≡ some argv
    → parseline cmdline
      ≡ (if is_background argv then some (drop_last argv, true) else some (argv, false))
unfolding parseline
parseline-build_argv cmdline argv built = rw (built, parseline) refl

-- On every command line parseline ends, and it finds at most half as many arguments as the line has
-- characters.
pub parseline_lem :
    (cmdline : List ℕ)
    → (argv : List (List ℕ)) × (bg : Bool) × (parseline cmdline ≡ some (argv, bg))
      × (2 * length argv ≤ length cmdline)
parseline_lem cmdline =
    let buf = replace_last cmdline in
    let (argv, built, short) = build_argv_enough (suc (length buf)) buf (omega arith) in
    let fits = length-replace_last cmdline in
    let parsed = parseline-build_argv cmdline argv built in
    elim (Bool-cases (is_background argv)) [
      | inl marked ↦
          let fewer = length-drop_last argv in
          (drop_last argv, true, ground (arith, parsed, marked), ground (arith, fits, short, fewer))
      | inr unmarked ↦ (argv, false, ground (arith, parsed, unmarked), ground (arith, fits, short))
    ]
