-- ===== src/Shell/Control/Invariant.antt =====
-- tsh.cc: the job list as the shell keeps it, with at most the job that is waited for in the foreground.
use mathlib.Core.Path.{subst}
use computer_systems_labs.Base.{
  ℕ, ◌<◌, ◌≡◌, ◌≢◌, ◌⊎◌, inl, inr, refl, sym, Bool, true, false, none, some, Option-cases, List, [],
  ◌∷◌, All, leb, ◌==◌, arith, sign_bit,
}
use computer_systems_labs.Shell.Jobs.{
  JobState, fg, bg, Job, is_positive, is_fg, addjob, fgpid, getjobpid,
}
use computer_systems_labs.Shell.Jobs.Laws.{IsSlot, lookup, absent}
use computer_systems_labs.Shell.Jobs.Map.{IsTable, addjob-All, addjob-IsTable}
use computer_systems_labs.Shell.Control.{
  Mode, prompt, exited, crashed, waiting, resuming, Shell, set_state, job_at, waitfg, launch,
}
use computer_systems_labs.Shell.Control.Entries.{
  set_state-All, set_state-DistinctPids, getjobpid-lookup,
}

-- Only the job with a number may be in the foreground, and none for 0.
abbrev pub OnlyFg : ℕ → List Job → Type 0
OnlyFg pid js = All (λ j. (is_fg j.state ≡ false) ⊎ (j.pid ≡ pid)) js

abbrev pub Foreground : Mode → List Job → Type 0
Foreground prompt js = OnlyFg 0 js
Foreground (waiting pid) js = OnlyFg pid js
Foreground (resuming cmd i) js = OnlyFg 0 js
Foreground exited js = Unit
Foreground crashed js = Unit

pub record IsShell (s : Shell) : Type 0 where
  pub table : IsTable s.table
  pub bounded : All (λ j. j.pid < sign_bit) s.table.jobs
  pub foreground : Foreground s.mode s.table.jobs

OnlyFg-absent : (pid : ℕ) (js : List Job) → All (λ k. k.pid ≢ pid) js → OnlyFg pid js → OnlyFg 0 js
OnlyFg-absent pid [] h f = tt
OnlyFg-absent pid (j ∷ js) h f = (ground (arith, h.0, f.0), OnlyFg-absent pid js h.1 f.1)

-- With no job in the foreground it may be any one.
pub OnlyFg-none : (pid : ℕ) (js : List Job) → All IsSlot js → OnlyFg 0 js → OnlyFg pid js
OnlyFg-none pid [] h f = tt
OnlyFg-none pid (j ∷ js) h f =
    let slot = h.0.free_state in (ground (arith, slot, f.0), OnlyFg-none pid js h.1 f.1)

-- A job other than the first one in the foreground is not waited for.
pub fgpid-OnlyFg : (pid : ℕ) (js : List Job) → fgpid js ≢ pid → OnlyFg pid js → OnlyFg 0 js
unfolding fgpid
fgpid-OnlyFg pid [] h f = tt
fgpid-OnlyFg pid (j ∷ js) h f =
    (ground (arith, h, f.0), fgpid-OnlyFg pid js (ground (arith, h, f.0)) f.1)

-- What keeps the jobs in the foreground among those allowed keeps it in every mode.
pub Foreground-map :
    (m : Mode) (js js' : List Job)
    → ((pid : ℕ) → OnlyFg pid js → OnlyFg pid js')
    → Foreground m js
    → Foreground m js'
Foreground-map prompt js js' h f = h 0 f
Foreground-map (waiting pid) js js' h f = h pid f
Foreground-map (resuming cmd i) js js' h f = h 0 f
Foreground-map exited js js' h f = tt
Foreground-map crashed js js' h f = tt

pub at_prompt : (s : Shell) → s.mode ≡ prompt → IsShell s → OnlyFg 0 s.table.jobs
at_prompt s ready valid = subst (λ m. Foreground m s.table.jobs) ready valid.foreground

pub waitfg-IsShell :
    (pid : ℕ) (s : Shell)
    → is_positive pid ≡ true
    → IsTable s.table
    → All (λ j. j.pid < sign_bit) s.table.jobs
    → OnlyFg pid s.table.jobs
    → s.mode ≡ prompt
    → IsShell (waitfg pid s)
unfolding waitfg
waitfg-IsShell pid s pos valid small only ready =
    let some_pid : (pid == 0) ≡ false = ground (arith, pos) in
    elim (Option-cases (getjobpid pid s.table.jobs)) [
      | inl missing ↦
          let none_fg =
            OnlyFg-absent pid s.table.jobs
              (absent pid s.table.jobs (getjobpid-lookup pid s.table.jobs pos missing)) only in
          rw (some_pid, missing)
            (record { table = valid; bounded = small; foreground = rw (ready) none_fg })
      | inr (i, found) ↦
          rw (some_pid, found) (record { table = valid; bounded = small; foreground = only })
    ]

pub launch-IsShell :
    (background : Bool) (cmdline : List ℕ) (pid : ℕ) (s : Shell)
    → is_positive pid ≡ true
    → lookup pid s.table.jobs ≡ none
    → s.mode ≡ prompt
    → IsShell s
    → IsShell (launch background cmdline pid s)
unfolding launch
launch-IsShell false cmdline pid s pos fresh ready valid =
    let t = (addjob pid fg cmdline s.table).1 in
    let forked : leb sign_bit pid ≡ false = ground (arith, pos) in
    let any = OnlyFg-none pid s.table.jobs valid.table.slots (at_prompt s ready valid) in
    let only : OnlyFg pid t.jobs =
      addjob-All (λ j. (is_fg j.state ≡ false) ⊎ (j.pid ≡ pid)) pid fg cmdline s.table (inr refl)
        any in
    let small : All (λ j. j.pid < sign_bit) t.jobs =
      addjob-All (λ j. j.pid < sign_bit) pid fg cmdline s.table (ground (arith, pos))
        valid.bounded in
    let listed : IsTable t = addjob-IsTable pid fg cmdline s.table pos fresh valid.table in
    rw (forked) (waitfg-IsShell pid (record s { table = t }) pos listed small only ready)
launch-IsShell true cmdline pid s pos fresh ready valid =
    let t = (addjob pid bg cmdline s.table).1 in
    let forked : leb sign_bit pid ≡ false = ground (arith, pos) in
    let only : OnlyFg 0 t.jobs =
      addjob-All (λ j. (is_fg j.state ≡ false) ⊎ (j.pid ≡ 0)) pid bg cmdline s.table (inl refl)
        (at_prompt s ready valid) in
    let small : All (λ j. j.pid < sign_bit) t.jobs =
      addjob-All (λ j. j.pid < sign_bit) pid bg cmdline s.table (ground (arith, pos))
        valid.bounded in
    let listed : IsTable t = addjob-IsTable pid bg cmdline s.table pos fresh valid.table in
    rw (forked) (record {
      table = listed;
      bounded = small;
      foreground = subst (λ m. Foreground m t.jobs) (sym ready) only;
    })

pub set_state-IsTable :
    (i : ℕ) (state : JobState) (js : List Job) (nextjid : ℕ) (j : Job)
    → job_at i js ≡ some j
    → j.pid ≢ 0
    → IsTable (record { jobs = js; nextjid = nextjid })
    → IsTable (record { jobs = set_state i state js; nextjid = nextjid })
set_state-IsTable i state js nextjid j at used valid =
    let slot : (k : Job) → job_at i js ≡ some k → IsSlot k → IsSlot (record k { state = state }) =
      λ k here old.
        let busy : k.pid ≢ 0 = ground (arith, at, here, used) in
        record { free = inl busy; free_jid = inl busy; free_state = inl busy } in
    record {
      slots = set_state-All IsSlot i state js slot valid.slots;
      distinct = set_state-DistinctPids i state js valid.distinct;
    }
