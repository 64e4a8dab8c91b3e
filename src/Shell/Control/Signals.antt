-- ===== src/Shell/Control/Signals.antt =====
-- tsh.cc: whom the handlers signal, when `waitfg` ends, and a child that the job list has no room for.
use mathlib.Core.Path.{subst}
use computer_systems_labs.Base.{
  ℕ, ◌-◌, ◌<◌, ◌≡◌, ◌≢◌, ◌⊎◌, inl, inr, refl, sym, ◌∙◌, true, false, Bool-cases, none, some,
  Option-cases, List, [], ◌∷◌, All, leb, ◌==◌, if◌then◌else◌, arith, sign_bit,
}
use computer_systems_labs.Shell.Jobs.{st, Job, is_positive, is_fg, deletejob, fgpid, getjobpid}
use computer_systems_labs.Shell.Jobs.Laws.{DistinctPids, lookup}
use computer_systems_labs.Shell.Jobs.Map.{IsTable, deletejob_lem}
use computer_systems_labs.Shell.Control.{
  kill, prompt, exited, crashed, waiting, resuming, Shell, Status, stopped, signaled, ended, send,
  set_state, job_at, wait_round, reap, sigchld_handler, forward, sigint_handler, sigtstp_handler,
  Signal, sigint, sigstop,
}
use computer_systems_labs.Shell.Control.Entries.{getjobpid-job_at, job_at-All, getjobpid-lookup}
use computer_systems_labs.Shell.Control.Invariant.{OnlyFg, Foreground, IsShell, at_prompt}

fgpid-cases : (pid : ℕ) (js : List Job) → OnlyFg pid js → (fgpid js ≡ 0) ⊎ (fgpid js ≡ pid)
unfolding fgpid
fgpid-cases pid [] f = inl refl
fgpid-cases pid (j ∷ js) f = elim (Bool-cases (is_fg j.state)) [
  | inl front ↦ inr (ground (arith, front, f.0))
  | inr back ↦ rw (back) (fgpid-cases pid js f.1)
]

-- At the prompt of such a shell both signal handlers send nothing.
pub forward-prompt :
    (s : Shell) → s.mode ≡ prompt → IsShell s → (sigint_handler s ≡ s) × (sigtstp_handler s ≡ s)
unfolding sigint_handler sigtstp_handler
forward-prompt s ready valid =
    let nobody = fgpid-cases 0 s.table.jobs (at_prompt s ready valid) in
    let zero_fg : fgpid s.table.jobs ≡ 0 = ground (arith, nobody) in
    (rw (zero_fg) refl, rw (zero_fg) refl)

-- While the shell waits for a job, a handler sends to that job or to none.
forward-waiting :
    (signal : Signal) (pid : ℕ) (s : Shell)
    → s.mode ≡ waiting pid
    → is_positive pid ≡ true
    → IsShell s
    → forward signal s ≡ (if fgpid s.table.jobs == pid then send (kill pid signal) s else s)
forward-waiting signal pid s looping pos valid =
    let only = subst (λ m. Foreground m s.table.jobs) looping valid.foreground in
    elim (fgpid-cases pid s.table.jobs only) [
      | inl nobody ↦ let other : (0 == pid) ≡ false = ground (arith, pos) in rw (nobody, other) refl
      | inr same ↦
          let right : leb sign_bit pid ≡ false = ground (arith, pos) in
          let some_pid : (pid == 0) ≡ false = ground (arith, pos) in
          let self : (pid == pid) ≡ true = ground arith in rw (same, right, some_pid, self) refl
    ]

-- While the shell waits for a job with a positive process number, ctrl-c sends SIGINT to the process
-- group of that job and ctrl-z sends it SIGSTOP, if it is in the foreground, and otherwise neither
-- changes anything. The job list is well-formed and at most that job is in the foreground.
pub handlers-waiting :
    (pid : ℕ) (s : Shell)
    → s.mode ≡ waiting pid
    → is_positive pid ≡ true
    → IsShell s
    → (sigint_handler s ≡ (if fgpid s.table.jobs == pid then send (kill pid sigint) s else s))
      × (sigtstp_handler s ≡ (if fgpid s.table.jobs == pid then send (kill pid sigstop) s else s))
unfolding sigint_handler sigtstp_handler
handlers-waiting pid s looping pos valid = (
  forward-waiting sigint pid s looping pos valid,
  forward-waiting sigstop pid s looping pos valid,
)

fgpid-lookup : (pid : ℕ) (js : List Job) → 0 < pid → lookup pid js ≡ none → fgpid js ≢ pid
unfolding fgpid lookup
fgpid-lookup pid [] h e = ground (arith, h)
fgpid-lookup pid (j ∷ js) h e = elim (Bool-cases (j.pid == pid)) [
  | inl here ↦ ground (arith, e, here)
  | inr other ↦ ground (arith, other, fgpid-lookup pid js h (ground (arith, e, other)))
]

fgpid-distinct :
    (pid : ℕ) (js : List Job) → 0 < pid → All (λ k. (k.pid ≢ pid) ⊎ (pid ≡ 0)) js → fgpid js ≢ pid
unfolding fgpid
fgpid-distinct pid [] h all = ground (arith, h)
fgpid-distinct pid (j ∷ js) h all = ground (arith, h, all.0, fgpid-distinct pid js h all.1)

-- A job that is stopped is not in the foreground any more.
fgpid-set_state :
    (i : ℕ) (js : List Job) (j : Job)
    → job_at i js ≡ some j
    → 0 < j.pid
    → DistinctPids js
    → fgpid (set_state i st js) ≢ j.pid
unfolding fgpid set_state job_at
fgpid-set_state i [] j at h d = ground (arith, at)
fgpid-set_state i (k ∷ js) j at h d = elim (Bool-cases (i == 0)) [
  | inl first ↦
      let same : k.pid ≡ j.pid = ground (arith, at, first) in
      let others : fgpid js ≢ k.pid = fgpid-distinct k.pid js (ground (arith, same, h)) d.0 in
      rw (first) (ground (arith, same, others))
  | inr behind ↦
      let later : job_at (i - 1) js ≡ some j = ground (arith, at, behind) in
      let differs = job_at-All (λ x. (x.pid ≢ k.pid) ⊎ (k.pid ≡ 0)) (i - 1) js j d.0 later in
      let rest = fgpid-set_state (i - 1) js j later h d.1 in
      rw (behind) (ground (arith, differs, h, rest))
]

deleted :
    (pid : ℕ) (s : Shell)
    → is_positive pid ≡ true
    → IsTable s.table
    → fgpid (deletejob pid s.table).1.jobs ≢ pid
deleted pid s pos valid = elim (deletejob_lem pid s.table pos valid) [
  | inl (refused, same, missing) ↦
      rw (same) (fgpid-lookup pid s.table.jobs (ground (arith, pos)) missing)
  | inr (gone, kept, found) ↦
      let self : (pid == pid) ≡ true = ground arith in
      fgpid-lookup pid (deletejob pid s.table).1.jobs (ground (arith, pos))
        (found pid (ground (arith, pos)) ∙ rw (self) refl)
]

-- After a report on the job that the shell waits for, its number is not that of a job in the
-- foreground, or the shell has crashed on a stopped child that the job list does not have.
reap-fgpid :
    (pid : ℕ) (status : Status) (s : Shell)
    → is_positive pid ≡ true
    → IsTable s.table
    → (fgpid (reap pid status s).table.jobs ≢ pid) × ((reap pid status s).mode ≡ s.mode)
      ⊎ (lookup pid s.table.jobs ≡ none) × ((reap pid status s).mode ≡ crashed)
unfolding reap
reap-fgpid pid (stopped signal) s pos valid = elim (Option-cases (getjobpid pid s.table.jobs)) [
  | inl missing ↦ inr (getjobpid-lookup pid s.table.jobs pos missing, rw (missing, reap) refl)
  | inr (i, found) ↦
      let (_, j, at, same) = getjobpid-job_at pid i s.table.jobs found in
      let away = fgpid-set_state i s.table.jobs j at (ground (arith, pos, same)) valid.distinct in
      inl (rw (found, reap) (ground (arith, away, same), refl))
]
reap-fgpid pid (signaled signal) s pos valid = inl (deleted pid s pos valid, refl)
reap-fgpid pid ended s pos valid = inl (deleted pid s pos valid, refl)

pub sigchld_handler-prompt :
    (pid : ℕ) (status : Status) (s : Shell)
    → s.mode ≡ prompt
    → sigchld_handler ((pid, status) ∷ []) s ≡ reap pid status s
unfolding sigchld_handler
sigchld_handler-prompt pid status s ready =
    subst
      (λ m.
        (elim m [
          | crashed ↦ s
          | prompt ↦ reap pid status s
          | exited ↦ reap pid status s
          | waiting q ↦ reap pid status s
          | resuming cmd i ↦ reap pid status s
        ])
        ≡ reap pid status s)
      (sym ready) refl

sigchld_handler-waiting :
    (p pid : ℕ) (status : Status) (s : Shell)
    → s.mode ≡ waiting p
    → sigchld_handler ((pid, status) ∷ []) s ≡ reap pid status s
unfolding sigchld_handler
sigchld_handler-waiting p pid status s looping =
    subst
      (λ m.
        (elim m [
          | crashed ↦ s
          | prompt ↦ reap pid status s
          | exited ↦ reap pid status s
          | waiting q ↦ reap pid status s
          | resuming cmd i ↦ reap pid status s
        ])
        ≡ reap pid status s)
      (sym looping) refl

wait_round-away :
    (pid : ℕ) (s : Shell)
    → s.mode ≡ waiting pid
    → fgpid s.table.jobs ≢ pid
    → (wait_round s).mode ≡ prompt
unfolding wait_round
wait_round-away pid s looping away =
    let other : (pid == fgpid s.table.jobs) ≡ false = ground (arith, away) in
    rw (looping, other, wait_round) refl

-- Where the shell waits for a job that the job list has, a report that the job has stopped or ended
-- lets the next round of waitfg return to the prompt.
pub wait_round-reap :
    (pid : ℕ) (status : Status) (s : Shell)
    → s.mode ≡ waiting pid
    → is_positive pid ≡ true
    → lookup pid s.table.jobs ≢ none
    → IsShell s
    → (wait_round (sigchld_handler ((pid, status) ∷ []) s)).mode ≡ prompt
wait_round-reap pid status s looping pos listed valid =
    let one = sigchld_handler-waiting pid pid status s looping in
    elim (reap-fgpid pid status s pos valid.table) [
      | inr (missing, mode) ↦ absurd (listed missing)
      | inl (away, mode) ↦ rw (one) (wait_round-away pid (reap pid status s) (mode ∙ looping) away)
    ]
