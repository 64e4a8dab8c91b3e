-- ===== src/Shell/Control/Entries.antt =====
-- jobs.cc and tsh.cc: the entry that a search finds, and what a store to its state keeps.
use mathlib.Core.Path.{subst}
use computer_systems_labs.Base.{
  ℕ, ◌+◌, ◌-◌, ◌≤◌, ◌≡◌, ◌≢◌, ◌⊎◌, inl, inr, refl, Bool, true, Bool-cases, none, some, List, [],
  ◌∷◌, All, ◌==◌, arith,
}
use computer_systems_labs.Shell.Jobs.{JobState, Job, is_positive, find_index, getjobpid, getjobjid}
use computer_systems_labs.Shell.Jobs.Laws.{DistinctPids, lookup}
use computer_systems_labs.Shell.Control.{job_at, set_state}

find_index-job_at :
    (test : Job → Bool) (k i : ℕ) (js : List Job)
    → find_index test k js ≡ some i
    → (k ≤ i) × (j : Job) × (job_at (i - k) js ≡ some j) × (test j ≡ true)
unfolding find_index job_at
find_index-job_at test k i [] e = ground (arith, e)
find_index-job_at test k i (j ∷ js) e = elim (Bool-cases (test j)) [
  | inl found ↦ (ground (arith, e, found), j, ground (arith, e, found), found)
  | inr other ↦
      let (above, job, at, passed) =
        find_index-job_at test (k + 1) i js (ground (arith, e, other)) in
      (omega arith, job, ground (arith, above, at), passed)
]

pub getjobpid-job_at :
    (pid i : ℕ) (js : List Job)
    → getjobpid pid js ≡ some i
    → (is_positive pid ≡ true) × (j : Job) × (job_at i js ≡ some j) × (j.pid ≡ pid)
unfolding getjobpid
getjobpid-job_at pid i js e =
    let found : find_index (λ j. j.pid == pid) 0 js ≡ some i = ground (arith, e) in
    let (_, job, at, passed) = find_index-job_at (λ j. j.pid == pid) 0 i js found in
    (ground (arith, e), job, ground (arith, at), ground (arith, passed))

pub getjobjid-job_at :
    (jid i : ℕ) (js : List Job)
    → getjobjid jid js ≡ some i
    → (is_positive jid ≡ true) × (j : Job) × (job_at i js ≡ some j) × (j.jid ≡ jid)
unfolding getjobjid
getjobjid-job_at jid i js e =
    let found : find_index (λ j. j.jid == jid) 0 js ≡ some i = ground (arith, e) in
    let (_, job, at, passed) = find_index-job_at (λ j. j.jid == jid) 0 i js found in
    (ground (arith, e), job, ground (arith, at), ground (arith, passed))

-- A property of all entries is kept by a store to one that keeps it.
pub set_state-All :
    (P : Job → Type 0) (i : ℕ) (state : JobState) (js : List Job)
    → ((j : Job) → job_at i js ≡ some j → P j → P (record j { state = state }))
    → All P js
    → All P (set_state i state js)
unfolding set_state job_at
set_state-All P i state [] h all = tt
set_state-All P i state (j ∷ js) h all = elim (Bool-cases (i == 0)) [
  | inl first ↦ rw (first) (h j (ground (arith, first)) all.0, all.1)
  | inr behind ↦
      rw (behind)
        (all.0, set_state-All P (i - 1) state js (λ k at. h k (ground (arith, behind, at))) all.1)
]

-- The process numbers stay where they are.
pub set_state-DistinctPids :
    (i : ℕ) (state : JobState) (js : List Job)
    → DistinctPids js
    → DistinctPids (set_state i state js)
unfolding set_state job_at
set_state-DistinctPids i state [] d = tt
set_state-DistinctPids i state (j ∷ js) d = elim (Bool-cases (i == 0)) [
  | inl first ↦ rw (first) (d.0, d.1)
  | inr behind ↦ rw (behind) (
    set_state-All (λ k. (k.pid ≢ j.pid) ⊎ (j.pid ≡ 0)) (i - 1) state js (λ k at p. p) d.0,
    set_state-DistinctPids (i - 1) state js d.1,
  )
]

find_index-lookup :
    (pid k : ℕ) (js : List Job) → find_index (λ j. j.pid == pid) k js ≡ none → lookup pid js ≡ none
unfolding find_index lookup
find_index-lookup pid k [] e = refl
find_index-lookup pid k (j ∷ js) e = elim (Bool-cases (j.pid == pid)) [
  | inl here ↦ ground (arith, e, here)
  | inr other ↦ ground (arith, other, find_index-lookup pid (k + 1) js (ground (arith, e, other)))
]

-- Where the search by process number finds nothing, the map has no such job.
pub getjobpid-lookup :
    (pid : ℕ) (js : List Job)
    → is_positive pid ≡ true
    → getjobpid pid js ≡ none
    → lookup pid js ≡ none
unfolding getjobpid
getjobpid-lookup pid js pos e = find_index-lookup pid 0 js (ground (arith, pos, e))

lookup-find_index :
    (pid k : ℕ) (js : List Job) → lookup pid js ≡ none → find_index (λ j. j.pid == pid) k js ≡ none
unfolding find_index lookup
lookup-find_index pid k [] e = refl
lookup-find_index pid k (j ∷ js) e = ground (arith, e, lookup-find_index pid (k + 1) js)

pub lookup-getjobpid : (pid : ℕ) (js : List Job) → lookup pid js ≡ none → getjobpid pid js ≡ none
unfolding getjobpid
lookup-getjobpid pid js e = ground (arith, lookup-find_index pid 0 js e)

pub job_at-All :
    (P : Job → Type 0) (i : ℕ) (js : List Job) (j : Job) → All P js → job_at i js ≡ some j → P j
unfolding job_at
job_at-All P i [] j all e = ground (arith, e)
job_at-All P i (k ∷ js) j all e = elim (Bool-cases (i == 0)) [
  | inl first ↦ let same : k ≡ j = ground (arith, e, first) in subst P same all.0
  | inr behind ↦ job_at-All P (i - 1) js j all.1 (ground (arith, e, behind))
]
