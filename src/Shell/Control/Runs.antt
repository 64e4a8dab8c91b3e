-- ===== src/Shell/Control/Runs.antt =====
-- tsh.cc: the shell as a step relation, and the invariant of what it can reach.
use mathlib.Core.Path.{subst}
use computer_systems_labs.Base.{
  ℕ, ◌<◌, ◌≡◌, ◌≢◌, ◌⊎◌, inl, inr, refl, true, false, Bool-cases, none, some, Option-cases, List,
  [], ◌∷◌, All, leb, ◌==◌, arith, sign_bit,
}
use computer_systems_labs.Shell.Jobs.{
  st, Job, is_positive, is_fg, cleared, deletejob, fgpid, getjobpid, initjobs,
}
use computer_systems_labs.Shell.Jobs.Laws.{IsSlot, DistinctPids, lookup}
use computer_systems_labs.Shell.Jobs.Map.{deletejob-All, deletejob-IsTable}
use computer_systems_labs.Shell.Line.{parseline}
use computer_systems_labs.Shell.Control.{
  Output, prompt, exited, crashed, waiting, resuming, job_at, finish_job, Shell, Status, stopped,
  signaled, ended, set_state, store_state, wait_round, run_argv, eval, reap, sigchld_handler,
  forward, sigint_handler, sigtstp_handler, sigquit_handler, Signal, sigint, sigstop,
}
use computer_systems_labs.Shell.Control.Entries.{getjobpid-job_at, set_state-All}
use computer_systems_labs.Shell.Control.Invariant.{
  Foreground, IsShell, fgpid-OnlyFg, Foreground-map, set_state-IsTable,
}
use computer_systems_labs.Shell.Control.Commands.{
  finish_job-IsShell, run_argv-IsShell, send-IsShell, exited-IsShell,
}

-- Whether the shell still runs.
pub data IsLive (s : Shell) : Type 0 where
  reads : s.mode ≡ prompt → IsLive s
  waits : (pid : ℕ) → s.mode ≡ waiting pid → IsLive s
  resumes : (cmd : List ℕ) (i : ℕ) → s.mode ≡ resuming cmd i → IsLive s

-- A command is read at the prompt, and a new child has a number that no job has. A command `bg` or `fg`
-- that finds its job sends the signal in one step and stores the state in another, `resume`, which needs
-- that the job has not ended in between. Signals come while the shell runs, between these two steps too,
-- and a round of the loop of waitfg is a step.
pub data Step (s t : Shell) : Type 0 where
  command :
      (cmdline : List ℕ) (pid : ℕ)
      → s.mode ≡ prompt
      → is_positive pid ≡ true
      → lookup pid s.table.jobs ≡ none
      → eval cmdline pid s ≡ some t
      → Step s t
  resume :
      (cmd : List ℕ) (i : ℕ) (j : Job)
      → s.mode ≡ resuming cmd i
      → job_at i s.table.jobs ≡ some j
      → j.pid ≢ 0
      → t ≡ finish_job cmd i s
      → Step s t
  children : (reports : List (ℕ × Status)) → IsLive s → t ≡ sigchld_handler reports s → Step s t
  interrupt : IsLive s → t ≡ sigint_handler s → Step s t
  suspend : IsLive s → t ≡ sigtstp_handler s → Step s t
  quit : IsLive s → t ≡ sigquit_handler s → Step s t
  wait : IsLive s → t ≡ wait_round s → Step s t

pub data Reach (s : Shell) : Shell → Type 0 where
  here : Reach s s
  next : {t u : Shell} → Reach s t → Step t u → Reach s u

eval-IsShell :
    (cmdline : List ℕ) (pid : ℕ) (s t : Shell)
    → is_positive pid ≡ true
    → lookup pid s.table.jobs ≡ none
    → s.mode ≡ prompt
    → IsShell s
    → eval cmdline pid s ≡ some t
    → IsShell t
unfolding eval
eval-IsShell cmdline pid s t pos fresh ready valid e = elim (Option-cases (parseline cmdline)) [
  | inl out ↦ ground (arith, e, out)
  | inr ((argv, background), parsed) ↦
      let same : run_argv background argv cmdline pid s ≡ t = ground (arith, e, parsed) in
      subst IsShell same (run_argv-IsShell background argv cmdline pid s pos fresh ready valid)
]

deleted-IsShell :
    (pid : ℕ) (s : Shell) → IsShell s → IsShell (record s { table = (deletejob pid s.table).1 })
deleted-IsShell pid s valid = record {
  table = deletejob-IsTable pid s.table valid.table;
  bounded = deletejob-All (λ j. j.pid < sign_bit) pid s.table (ground arith) valid.bounded;
  foreground =
      Foreground-map s.mode s.table.jobs (deletejob pid s.table).1.jobs
        (λ p f. deletejob-All (λ j. (is_fg j.state ≡ false) ⊎ (j.pid ≡ p)) pid s.table (inl refl) f)
        valid.foreground;
}

stopped-IsShell :
    (pid i : ℕ) (s : Shell)
    → getjobpid pid s.table.jobs ≡ some i
    → IsShell s
    → IsShell (store_state i st s)
stopped-IsShell pid i s found valid =
    let js = s.table.jobs in
    let (pos, j, at, same) = getjobpid-job_at pid i js found in
    record {
      table =
          set_state-IsTable i st js s.table.nextjid j at (ground (arith, pos, same)) valid.table;
      bounded = set_state-All (λ j. j.pid < sign_bit) i st js (λ k here p. p) valid.bounded;
      foreground =
          Foreground-map s.mode js (set_state i st js)
            (λ p f.
              set_state-All (λ j. (is_fg j.state ≡ false) ⊎ (j.pid ≡ p)) i st js
                (λ k here q. inl refl) f)
            valid.foreground;
    }

reap-IsShell : (pid : ℕ) (status : Status) (s : Shell) → IsShell s → IsShell (reap pid status s)
unfolding reap
reap-IsShell pid (stopped signal) s valid = elim (Option-cases (getjobpid pid s.table.jobs)) [
  | inl missing ↦
      rw (missing, reap) (record { table = valid.table; bounded = valid.bounded; foreground = tt })
  | inr (i, found) ↦
      let kept = stopped-IsShell pid i s found valid in
      rw (found, reap)
        (record { table = kept.table; bounded = kept.bounded; foreground = kept.foreground })
]
reap-IsShell pid (signaled signal) s valid =
    let kept = deleted-IsShell pid s valid in
    record { table = kept.table; bounded = kept.bounded; foreground = kept.foreground }
reap-IsShell pid ended s valid = deleted-IsShell pid s valid

sigchld_handler-IsShell :
    (reports : List (ℕ × Status)) (s : Shell) → IsShell s → IsShell (sigchld_handler reports s)
unfolding sigchld_handler
sigchld_handler-IsShell [] s valid = valid
sigchld_handler-IsShell ((pid, status) ∷ more) s valid =
    let rest = sigchld_handler-IsShell more (reap pid status s) (reap-IsShell pid status s valid) in
    elim s.mode
      as (λ m. IsShell (elim m [
        | crashed ↦ s
        | prompt ↦ sigchld_handler more (reap pid status s)
        | exited ↦ sigchld_handler more (reap pid status s)
        | waiting p ↦ sigchld_handler more (reap pid status s)
        | resuming cmd i ↦ sigchld_handler more (reap pid status s)
      ])) [
        | crashed ↦ valid
        | prompt ↦ rest
        | exited ↦ rest
        | waiting p ↦ rest
        | resuming cmd i ↦ rest
      ]

forward-IsShell : (signal : Signal) (s : Shell) → IsShell s → IsShell (forward signal s)
forward-IsShell signal s valid = elim (Bool-cases (leb sign_bit (fgpid s.table.jobs))) [
  | inl negative ↦ rw (negative) (exited-IsShell s valid)
  | inr right ↦ elim (Bool-cases (fgpid s.table.jobs == 0)) [
    | inl nobody ↦ rw (right, nobody) valid
    | inr somebody ↦
        rw (right, somebody) (send-IsShell (Output.kill (fgpid s.table.jobs) signal) s valid)
  ]
]

wait_round-IsShell : (s : Shell) → IsLive s → IsShell s → IsShell (wait_round s)
unfolding wait_round
wait_round-IsShell s (reads ready) valid = rw (ready, wait_round) valid
wait_round-IsShell s (resumes cmd i held) valid = rw (held, wait_round) valid
wait_round-IsShell s (waits pid looping) valid =
    let only = subst (λ m. Foreground m s.table.jobs) looping valid.foreground in
    elim (Bool-cases (pid == fgpid s.table.jobs)) [
      | inl same ↦ rw (looping, same, wait_round) valid
      | inr gone ↦
          let none_fg = fgpid-OnlyFg pid s.table.jobs (ground (arith, gone)) only in
          rw (looping, gone, wait_round)
            (record { table = valid.table; bounded = valid.bounded; foreground = none_fg })
    ]

Step-IsShell : (s t : Shell) → Step s t → IsShell s → IsShell t
unfolding sigint_handler sigtstp_handler sigquit_handler
Step-IsShell s t (command cmdline pid ready pos fresh e) valid =
    eval-IsShell cmdline pid s t pos fresh ready valid e
Step-IsShell s t (resume cmd i j held at used e) valid =
    rw (e) (finish_job-IsShell cmd i s j at used held valid)
Step-IsShell s t (children reports live e) valid = rw (e) (sigchld_handler-IsShell reports s valid)
Step-IsShell s t (interrupt live e) valid = rw (e) (forward-IsShell sigint s valid)
Step-IsShell s t (suspend live e) valid = rw (e) (forward-IsShell sigstop s valid)
Step-IsShell s t (quit live e) valid = rw (e) (exited-IsShell s valid)
Step-IsShell s t (wait live e) valid = rw (e) (wait_round-IsShell s live valid)

-- The shell behind `initjobs`, at its first prompt.
abbrev pub started : List Job → Shell
started js = record {
  table = record { jobs = initjobs js; nextjid = 1 };
  mode = prompt;
  output = [];
}

started-All : (P : Job → Type 0) (js : List Job) → P cleared → All P (initjobs js)
unfolding initjobs
started-All P [] h = tt
started-All P (j ∷ js) h = (h, started-All P js h)

started-DistinctPids : (js : List Job) → DistinctPids (initjobs js)
unfolding initjobs
started-DistinctPids [] = tt
started-DistinctPids (j ∷ js) =
    (started-All (λ k. (k.pid ≢ 0) ⊎ (cleared.pid ≡ 0)) js (inr refl), started-DistinctPids js)

started-IsShell : (js : List Job) → IsShell (started js)
started-IsShell js = record {
  table = record {
    slots =
        started-All IsSlot js
          (record { free = inr (refl, refl, refl); free_jid = inr refl; free_state = inr refl });
    distinct = started-DistinctPids js;
  };
  bounded = started-All (λ j. j.pid < sign_bit) js (ground arith);
  foreground = started-All (λ j. (is_fg j.state ≡ false) ⊎ (j.pid ≡ 0)) js (inl refl);
}

-- In every shell that is reached from the first prompt, where no job that bg or fg continues ends
-- between the signal to it and the store of its state, and no signal comes inside a handler or at another
-- place of a command, the entries of the job list are as clearjob leaves them or jobs with different
-- process numbers, each below 2^31; no job is in the foreground at the prompt and between that signal and
-- that store, and only the job waited for while waitfg waits.
pub Reach-IsShell : (js : List Job) (s : Shell) → Reach (started js) s → IsShell s
Reach-IsShell js s here = started-IsShell js
Reach-IsShell js s (next {t} r last) = Step-IsShell t s last (Reach-IsShell js t r)
