-- ===== src/Shell/Jobs/Laws.antt =====
-- jobs.cc: the job list is a map from process numbers to jobs.
use mathlib.Core.Path.{subst}
use computer_systems_labs.Base.{
  ℕ, ◌<◌, ◌≡◌, ◌≢◌, ◌⊎◌, inl, inr, refl, true, false, Bool-cases, Option, none, some, Option-cases,
  List, [], ◌∷◌, All, ◌==◌, if◌then◌else◌, arith,
}
use computer_systems_labs.Shell.Jobs.{Job, undef, is_fg, cleared, fill_free, clear_pid}

-- An entry is a job, or it is as `clearjob` leaves it.
pub record IsSlot (j : Job) : Type 0 where
  pub free : (j.pid ≢ 0) ⊎ (j.jid ≡ 0) × (j.state ≡ undef) × (j.cmdline ≡ [])
  pub free_jid : (j.pid ≢ 0) ⊎ (j.jid ≡ 0)
  pub free_state : (j.pid ≢ 0) ⊎ (is_fg j.state ≡ false)

-- No two jobs have the same number.
abbrev pub DistinctPids : List Job → Type 0
DistinctPids [] = Unit
DistinctPids (j ∷ js) = All (λ k. (k.pid ≢ j.pid) ⊎ (j.pid ≡ 0)) js × DistinctPids js

-- The job with a number.
unfoldable pub lookup : ℕ → List Job → Option Job
lookup pid [] = none
lookup pid (j ∷ js) = if j.pid == pid then some j else lookup pid js

-- A new job goes where the map had none, and the other jobs stay.
pub lookup-fill_free :
    (q : ℕ) (new : Job) (js js' : List Job)
    → 0 < q
    → fill_free new js ≡ some js'
    → lookup new.pid js ≡ none
    → lookup q js' ≡ (if q == new.pid then some new else lookup q js)
unfolding fill_free lookup
lookup-fill_free q new [] js' pos e fresh = ground (arith, e)
lookup-fill_free q new (j ∷ js) js' pos e fresh = elim (Bool-cases (j.pid == 0)) [
  | inl free ↦
      let placed : new ∷ js ≡ js' = ground (arith, e, free) in
      subst (λ l. lookup q l ≡ (if q == new.pid then some new else lookup q (j ∷ js))) placed
        (unfold lookup in ground (arith, pos, free))
  | inr used ↦ elim (Option-cases (fill_free new js)) [
    | inl full ↦ ground (arith, e, used, full)
    | inr (rest, found) ↦
        let placed : j ∷ rest ≡ js' = ground (arith, e, used, found) in
        let behind : lookup new.pid js ≡ none = ground (arith, fresh) in
        subst (λ l. lookup q l ≡ (if q == new.pid then some new else lookup q (j ∷ js))) placed
          (ground (arith, fresh, lookup-fill_free q new js rest pos found behind))
  ]
]

pub fill_free-All :
    (P : Job → Type 0) (new : Job) (js js' : List Job)
    → P new
    → All P js
    → fill_free new js ≡ some js'
    → All P js'
unfolding fill_free
fill_free-All P new [] js' pn all e = ground (arith, e)
fill_free-All P new (j ∷ js) js' pn all e = elim (Bool-cases (j.pid == 0)) [
  | inl free ↦
      let placed : new ∷ js ≡ js' = ground (arith, e, free) in subst (All P) placed (pn, all.1)
  | inr used ↦ elim (Option-cases (fill_free new js)) [
    | inl full ↦ ground (arith, e, used, full)
    | inr (rest, found) ↦
        let placed : j ∷ rest ≡ js' = ground (arith, e, used, found) in
        subst (All P) placed (all.0, fill_free-All P new js rest pn all.1 found)
  ]
]

pub clear_pid-All :
    (P : Job → Type 0) (pid : ℕ) (js js' : List Job)
    → P cleared
    → All P js
    → clear_pid pid js ≡ some js'
    → All P js'
unfolding clear_pid
clear_pid-All P pid [] js' pc all e = ground (arith, e)
clear_pid-All P pid (j ∷ js) js' pc all e = elim (Bool-cases (j.pid == pid)) [
  | inl here ↦
      let placed : cleared ∷ js ≡ js' = ground (arith, e, here) in subst (All P) placed (pc, all.1)
  | inr other ↦ elim (Option-cases (clear_pid pid js)) [
    | inl missing ↦ ground (arith, e, other, missing)
    | inr (rest, found) ↦
        let placed : j ∷ rest ≡ js' = ground (arith, e, other, found) in
        subst (All P) placed (all.0, clear_pid-All P pid js rest pc all.1 found)
  ]
]

-- A number that the map does not have stands in no entry.
pub absent : (pid : ℕ) (js : List Job) → lookup pid js ≡ none → All (λ k. k.pid ≢ pid) js
unfolding lookup
absent pid [] h = tt
absent pid (j ∷ js) h = (ground (arith, h), absent pid js (ground (arith, h)))

weaken : (n : ℕ) (js : List Job) → All (λ k. k.pid ≢ n) js → All (λ k. (k.pid ≢ n) ⊎ (n ≡ 0)) js
weaken n [] h = tt
weaken n (j ∷ js) h = (inl h.0, weaken n js h.1)

pub fill_free-DistinctPids :
    (new : Job) (js js' : List Job)
    → lookup new.pid js ≡ none
    → DistinctPids js
    → fill_free new js ≡ some js'
    → DistinctPids js'
unfolding fill_free lookup
fill_free-DistinctPids new [] js' fresh d e = ground (arith, e)
fill_free-DistinctPids new (j ∷ js) js' fresh d e = elim (Bool-cases (j.pid == 0)) [
  | inl free ↦
      let placed : new ∷ js ≡ js' = ground (arith, e, free) in
      subst DistinctPids placed (weaken new.pid js (absent new.pid js (ground (arith, fresh))), d.1)
  | inr used ↦ elim (Option-cases (fill_free new js)) [
    | inl full ↦ ground (arith, e, used, full)
    | inr (rest, found) ↦
        let placed : j ∷ rest ≡ js' = ground (arith, e, used, found) in
        let other : new.pid ≢ j.pid = ground (arith, fresh) in
        subst DistinctPids placed (
          fill_free-All (λ k. (k.pid ≢ j.pid) ⊎ (j.pid ≡ 0)) new js rest (inl other) d.0 found,
          fill_free-DistinctPids new js rest (ground (arith, fresh)) d.1 found,
        )
  ]
]

pub clear_pid-DistinctPids :
    (pid : ℕ) (js js' : List Job) → DistinctPids js → clear_pid pid js ≡ some js' → DistinctPids js'
unfolding clear_pid
clear_pid-DistinctPids pid [] js' d e = ground (arith, e)
clear_pid-DistinctPids pid (j ∷ js) js' d e = elim (Bool-cases (j.pid == pid)) [
  | inl here ↦
      let placed : cleared ∷ js ≡ js' = ground (arith, e, here) in
      subst DistinctPids placed (All-any js, d.1)
  | inr other ↦ elim (Option-cases (clear_pid pid js)) [
    | inl missing ↦ ground (arith, e, other, missing)
    | inr (rest, found) ↦
        let placed : j ∷ rest ≡ js' = ground (arith, e, other, found) in
        subst DistinctPids placed (
          clear_pid-All (λ k. (k.pid ≢ j.pid) ⊎ (j.pid ≡ 0)) pid js rest (ground arith) d.0 found,
          clear_pid-DistinctPids pid js rest d.1 found,
        )
  ]
]
  where
    All-any : (ks : List Job) → All (λ k. (k.pid ≢ 0) ⊎ (cleared.pid ≡ 0)) ks
    All-any [] = tt
    All-any (k ∷ ks) = (inr refl, All-any ks)

-- A deleted job is gone, and the other jobs stay.
pub lookup-clear_pid :
    (q pid : ℕ) (js js' : List Job)
    → 0 < q
    → 0 < pid
    → DistinctPids js
    → clear_pid pid js ≡ some js'
    → lookup q js' ≡ (if q == pid then none else lookup q js)
unfolding clear_pid lookup
lookup-clear_pid q pid [] js' hq hp d e = ground (arith, e)
lookup-clear_pid q pid (j ∷ js) js' hq hp d e = elim (Bool-cases (j.pid == pid)) [
  | inl here ↦
      let placed : cleared ∷ js ≡ js' = ground (arith, e, here) in
      subst (λ l. lookup q l ≡ (if q == pid then none else lookup q (j ∷ js))) placed
        (ground (arith, hq, here, gone here))
  | inr other ↦ elim (Option-cases (clear_pid pid js)) [
    | inl missing ↦ ground (arith, e, other, missing)
    | inr (rest, found) ↦
        let placed : j ∷ rest ≡ js' = ground (arith, e, other, found) in
        subst (λ l. lookup q l ≡ (if q == pid then none else lookup q (j ∷ js))) placed
          (ground (arith, other, lookup-clear_pid q pid js rest hq hp d.1 found))
  ]
]
  where
    gone : (j.pid == pid) ≡ true → lookup pid js ≡ none
    gone same = missing js d.0
      where
        missing :
            (ks : List Job) → All (λ k. (k.pid ≢ j.pid) ⊎ (j.pid ≡ 0)) ks → lookup pid ks ≡ none
        missing [] all = refl
        missing (k ∷ ks) all = ground (arith, all.0, same, hp, missing ks all.1)
