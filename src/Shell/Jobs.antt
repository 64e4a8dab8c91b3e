-- ===== src/Shell/Jobs.antt =====
-- lab5-shell-lab/jobs.cc: the job list. Process and job numbers are `int` values, here as patterns.
-- A pointer to an entry is its index, and what `listjobs` prints is the list of the jobs shown.
pub mod Laws
pub mod Map
use computer_systems_labs.Base.{
  ℕ, zero, suc, ◌+◌, Bool, true, false, ◌&&◌, Option, none, some, List, [], ◌∷◌, ltb, ◌==◌,
  if◌then◌else◌, sign_bit,
}

pub data JobState : Type 0 where
  undef fg bg st : JobState

pub record Job : Type 0 where
  pub pid : ℕ
  pub jid : ℕ
  pub state : JobState
  pub cmdline : List ℕ

pub record Table : Type 0 where
  pub jobs : List Job
  pub nextjid : ℕ

abbrev pub maxjobs : ℕ
maxjobs = 16

-- `!(n < 1)` on an `int`
abbrev pub is_positive : ℕ → Bool
is_positive n = ltb 0 n && ltb n sign_bit

abbrev pub is_fg : JobState → Bool
is_fg fg = true
is_fg _ = false

abbrev pub cleared : Job
cleared = record { pid = 0; jid = 0; state = undef; cmdline = [] }

unfoldable pub initjobs : List Job → List Job
initjobs [] = []
initjobs (j ∷ js) = cleared ∷ initjobs js

-- The loop of `maxjid` over the entries that are left, with the largest number so far.
unfoldable pub maxjid_loop : List Job → ℕ → ℕ
maxjid_loop [] max = max
maxjid_loop (j ∷ js) max = maxjid_loop js (if ltb max j.jid then j.jid else max)

unfoldable pub maxjid : List Job → ℕ
maxjid jobs = maxjid_loop jobs 0

-- The loop of `addjob`: the first free entry becomes the new job, and `none` means that all are used.
unfoldable pub fill_free : Job → List Job → Option (List Job)
fill_free new [] = none
fill_free new (j ∷ js) =
    if j.pid == 0
    then some (new ∷ js)
    else elim (fill_free new js) [ none ↦ none | some js' ↦ some (j ∷ js') ]

unfoldable pub addjob : ℕ → JobState → List ℕ → Table → Bool × Table
addjob pid state cmdline t =
    if is_positive pid
    then elim (fill_free (record { pid = pid; jid = t.nextjid; state = state; cmdline = cmdline })
        t.jobs) [
          | none ↦ (false, t)
          | some js ↦ (
            true,
            record {
              jobs = js;
              nextjid = if ltb maxjobs (t.nextjid + 1) then 1 else t.nextjid + 1;
            },
          )
        ]
    else (false, t)

-- The loop of `deletejob`: the first entry with the number is cleared.
unfoldable pub clear_pid : ℕ → List Job → Option (List Job)
clear_pid pid [] = none
clear_pid pid (j ∷ js) =
    if j.pid == pid
    then some (cleared ∷ js)
    else elim (clear_pid pid js) [ none ↦ none | some js' ↦ some (j ∷ js') ]

unfoldable pub deletejob : ℕ → Table → Bool × Table
deletejob pid t =
    if is_positive pid
    then elim (clear_pid pid t.jobs) [
      | none ↦ (false, t)
      | some js ↦ (true, record { jobs = js; nextjid = maxjid js + 1 })
    ]
    else (false, t)

unfoldable pub fgpid : List Job → ℕ
fgpid [] = 0
fgpid (j ∷ js) = if is_fg j.state then j.pid else fgpid js

-- The first entry that passes a test, as the index from `i` on.
unfoldable pub find_index : (Job → Bool) → ℕ → List Job → Option ℕ
find_index test i [] = none
find_index test i (j ∷ js) = if test j then some i else find_index test (i + 1) js

unfoldable pub getjobpid : ℕ → List Job → Option ℕ
getjobpid pid jobs = if is_positive pid then find_index (λ j. j.pid == pid) 0 jobs else none

unfoldable pub getjobjid : ℕ → List Job → Option ℕ
getjobjid jid jobs = if is_positive jid then find_index (λ j. j.jid == jid) 0 jobs else none

unfoldable pub pid2jid_loop : ℕ → List Job → ℕ
pid2jid_loop pid [] = 0
pid2jid_loop pid (j ∷ js) = if j.pid == pid then j.jid else pid2jid_loop pid js

unfoldable pub pid2jid : ℕ → List Job → ℕ
pid2jid pid jobs = if is_positive pid then pid2jid_loop pid jobs else 0

unfoldable pub listjobs : List Job → List Job
listjobs [] = []
listjobs (j ∷ js) = if j.pid == 0 then listjobs js else j ∷ listjobs js
