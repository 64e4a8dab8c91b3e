-- ===== src/Shell/Line/Quoted.antt =====
-- helper-routines.cc: a command line written with quotes, and what `parseline` makes of it.
use mathlib.Core.Path.{subst}
use computer_systems_labs.Base.{
  ℕ, zero, suc, ◌+◌, ◌<◌, ◌≡◌, ◌≢◌, ◌⊎◌, refl, sym, ap, ◌∙◌, Bool, true, false, some, List, [], ◌∷◌,
  ◌++◌, length, All, arith,
}
use computer_systems_labs.Shell.Line.{
  replace_last, skip_spaces, split_at, next_token, build_argv, starts_with, is_background,
  drop_last, parseline,
}
use computer_systems_labs.Shell.Line.Laws.{build_argv_enough, build_argv_more, parseline-build_argv}

-- The arguments, each between quotes and before a space, and the end of the line.
unfoldable pub quoted : List (List ℕ) → List ℕ → List ℕ
quoted [] end = end
quoted (arg ∷ args) end = b'\'' ∷ arg ++ b'\'' ∷ b' ' ∷ quoted args end

-- The end of a line: with `&` for a background job.
abbrev pub line_end : Bool → List ℕ
line_end true = b'&' ∷ b'\n' ∷ []
line_end false = b'\n' ∷ []

split_at-quoted :
    (arg s : List ℕ) → All (λ c. c ≢ b'\'') arg → split_at b'\'' (arg ++ b'\'' ∷ s) ≡ some (arg, s)
unfolding split_at
split_at-quoted [] s h = refl
split_at-quoted (c ∷ arg) s h = ground (arith, h.0, split_at-quoted arg s h.1)

build_argv-space : (rounds : ℕ) (s : List ℕ) → build_argv rounds (b' ' ∷ s) ≡ build_argv rounds s
unfolding build_argv skip_spaces
build_argv-space zero s = refl
build_argv-space (suc rounds) s = refl

build_argv-quoted :
    (args : List (List ℕ)) (rounds : ℕ) (end : List ℕ) (last : List (List ℕ))
    → All (All (λ c. c ≢ b'\'')) args
    → build_argv rounds end ≡ some last
    → build_argv (length args + rounds) (quoted args end) ≡ some (args ++ last)
unfolding build_argv quoted skip_spaces next_token
build_argv-quoted [] rounds end last h e = ground (arith, e)
build_argv-quoted (arg ∷ args) rounds end last h e =
    let rest = length args + rounds in
    let more : build_argv rest (b' ' ∷ quoted args end) ≡ some (args ++ last) =
      build_argv-space rest (quoted args end) ∙ build_argv-quoted args rounds end last h.1 e in
    let step : build_argv (suc rest) (b'\'' ∷ arg ++ b'\'' ∷ b' ' ∷ quoted args end)
        ≡ some (arg ∷ args ++ last) =
      rw (split_at-quoted arg (b' ' ∷ quoted args end) h.0, more, build_argv) refl in
    let count : suc rest ≡ length (arg ∷ args) + rounds = omega arith in
    subst (λ n. build_argv n (quoted (arg ∷ args) end) ≡ some (arg ∷ args ++ last)) count step

replace_last-append : (s t : List ℕ) → 0 < length t → replace_last (s ++ t) ≡ s ++ replace_last t
unfolding replace_last
replace_last-append [] t h = refl
replace_last-append (c ∷ []) [] h = absurd (omega arith)
replace_last-append (c ∷ []) (d ∷ t) h = refl
replace_last-append (c ∷ d ∷ s) t h = ap (◌∷◌ c) (replace_last-append (d ∷ s) t h)

length-quoted : (args : List (List ℕ)) (c : ℕ) (end : List ℕ) → 0 < length (quoted args (c ∷ end))
unfolding quoted
length-quoted [] c end = ground arith
length-quoted (arg ∷ args) c end = ground arith

replace_last-quoted :
    (args : List (List ℕ)) (c : ℕ) (end : List ℕ)
    → replace_last (quoted args (c ∷ end)) ≡ quoted args (replace_last (c ∷ end))
unfolding quoted
replace_last-quoted [] c end = refl
replace_last-quoted (arg ∷ args) c end =
    let line = quoted args (c ∷ end) in
    let inner = replace_last-append (b'\'' ∷ b' ' ∷ []) line (length-quoted args c end) in
    let outer = replace_last-append (b'\'' ∷ arg) (b'\'' ∷ b' ' ∷ line) (ground arith) in
    cc (outer, inner, replace_last-quoted args c end)

is_background-append : (args : List (List ℕ)) → is_background (args ++ (b'&' ∷ []) ∷ []) ≡ true
unfolding is_background starts_with
is_background-append [] = refl
is_background-append (arg ∷ []) = refl
is_background-append (arg ∷ next ∷ args) = is_background-append (next ∷ args)

drop_last-append : (args : List (List ℕ)) (arg : List ℕ) → drop_last (args ++ arg ∷ []) ≡ args
unfolding drop_last
drop_last-append [] arg = refl
drop_last-append (a ∷ []) arg = refl
drop_last-append (a ∷ b ∷ args) arg = ap (◌∷◌ a) (drop_last-append (b ∷ args) arg)

append-nil : (args : List (List ℕ)) → args ++ [] ≡ args
append-nil [] = refl
append-nil (arg ∷ args) = ap (◌∷◌ arg) (append-nil args)

built-quoted :
    (args : List (List ℕ)) (c : ℕ) (end : List ℕ) (last : List (List ℕ))
    → All (All (λ c. c ≢ b'\'')) args
    → build_argv 3 (replace_last (c ∷ end)) ≡ some last
    → build_argv
        (suc (length (replace_last (quoted args (c ∷ end)))))
        (replace_last (quoted args (c ∷ end)))
      ≡ some (args ++ last)
built-quoted args c end last h e =
    let buf = replace_last (quoted args (c ∷ end)) in
    let (argv, built, short) = build_argv_enough (suc (length buf)) buf (omega arith) in
    let enough = length args + 3 + length buf in
    let direct : build_argv (length args + 3) buf ≡ some (args ++ last) =
      subst (λ s. build_argv (length args + 3) s ≡ some (args ++ last))
        (sym (replace_last-quoted args c end))
        (build_argv-quoted args 3 (replace_last (c ∷ end)) last h e) in
    built
    ∙ sym (build_argv_more (suc (length buf)) enough buf argv (omega arith) built)
    ∙ build_argv_more (length args + 3) enough buf (args ++ last) (omega arith) direct

-- Arguments without quotes that are written between quotes come back from parseline, and so does
-- whether the line ends with `&`; without `&` there must be an argument, the last not starting with it.
pub parseline-quoted :
    (args : List (List ℕ)) (bg : Bool)
    → All (All (λ c. c ≢ b'\'')) args
    → (bg ≡ true) ⊎ (is_background args ≡ false)
    → parseline (quoted args (line_end bg)) ≡ some (args, bg)
unfolding replace_last build_argv skip_spaces next_token split_at
parseline-quoted args true h d =
    let end = line_end true in
    let built = built-quoted args b'&' (b'\n' ∷ []) ((b'&' ∷ []) ∷ []) h refl in
    let parsed = parseline-build_argv (quoted args end) (args ++ (b'&' ∷ []) ∷ []) built in
    ground (arith, parsed, is_background-append args, drop_last-append args (b'&' ∷ []))
parseline-quoted args false h d =
    let end = line_end false in
    let built = built-quoted args b'\n' [] [] h refl in
    let parsed = parseline-build_argv (quoted args end) (args ++ []) built in
    ground (arith, parsed, append-nil args, d)
