-- ===== src/Shell/Control/Commands.antt =====
-- tsh.cc: the commands and the reports on children keep the job list well-formed.
use mathlib.Core.Path.{subst}
use computer_systems_labs.Base.{
  ℕ, ◌<◌, ◌≡◌, ◌≢◌, ◌⊎◌, ◌||◌, inl, inr, refl, Bool, true, false, Bool-cases, Option, Option-cases,
  none, some, List, [], ◌∷◌, All, ◌==◌, arith, sign_bit,
}
use computer_systems_labs.Shell.Jobs.{
  JobState, fg, bg, Job, is_positive, is_fg, listjobs, listjobs, getjobpid, getjobjid,
}
use computer_systems_labs.Shell.Jobs.Laws.{lookup}
use computer_systems_labs.Shell.Control.{
  Output, prompt, exited, resuming, Shell, send, in_mode, set_state, store_state, job_at,
  continue_job, finish_job, chosen, do_bgfg, builtin_cmd, run_argv, same_text, bg_text, fg_text,
  jobs_text, quit_text,
}
use computer_systems_labs.Shell.Control.Numbers.{is_digit, atoi}
use computer_systems_labs.Shell.Control.Entries.{set_state-All, job_at-All}
use computer_systems_labs.Shell.Control.Invariant.{
  OnlyFg, Foreground, IsShell, OnlyFg-none, at_prompt, waitfg-IsShell, launch-IsShell,
  set_state-IsTable,
}

continue_job-IsShell :
    (cmd : List ℕ) (i : ℕ) (s : Shell)
    → s.mode ≡ prompt
    → IsShell s
    → IsShell (continue_job cmd i s)
unfolding continue_job
continue_job-IsShell cmd i s ready valid = elim (Option-cases (job_at i s.table.jobs)) [
  | inl missing ↦
      rw (missing, continue_job)
        (record { table = valid.table; bounded = valid.bounded; foreground = tt })
  | inr (j, at) ↦
      rw (at, continue_job)
        (record {
          table = valid.table;
          bounded = valid.bounded;
          foreground = at_prompt s ready valid;
        })
]

at_resuming :
    (cmd : List ℕ) (i : ℕ) (s : Shell) → s.mode ≡ resuming cmd i → IsShell s → OnlyFg 0 s.table.jobs
at_resuming cmd i s held valid = subst (λ m. Foreground m s.table.jobs) held valid.foreground

-- The entry that `do_bgfg` points to holds a job still when its state is stored.
pub finish_job-IsShell :
    (cmd : List ℕ) (i : ℕ) (s : Shell) (j : Job)
    → job_at i s.table.jobs ≡ some j
    → j.pid ≢ 0
    → s.mode ≡ resuming cmd i
    → IsShell s
    → IsShell (finish_job cmd i s)
unfolding finish_job
finish_job-IsShell cmd i s j at used ready valid =
    let js = s.table.jobs in
    let listed =
      λ (state : JobState). set_state-IsTable i state js s.table.nextjid j at used valid.table in
    let small : (state : JobState) → All (λ j. j.pid < sign_bit) (set_state i state js) =
      λ state. set_state-All (λ j. j.pid < sign_bit) i state js (λ k here p. p) valid.bounded in
    let none_fg = at_resuming cmd i s ready valid in
    elim (Bool-cases (same_text cmd bg_text)) [
      | inl to_bg ↦
          let still : OnlyFg 0 (set_state i bg js) =
            set_state-All (λ j. (is_fg j.state ≡ false) ⊎ (j.pid ≡ 0)) i bg js
              (λ k here p. inl refl) none_fg in
          rw (at, to_bg, finish_job)
            (record { table = listed bg; bounded = small bg; foreground = still })
      | inr to_fg ↦
          let any = OnlyFg-none j.pid js valid.table.slots none_fg in
          let same : (k : Job) → job_at i js ≡ some k → k.pid ≡ j.pid =
            λ k here. ground (arith, at, here) in
          let only : OnlyFg j.pid (set_state i fg js) =
            set_state-All (λ k. (is_fg k.state ≡ false) ⊎ (k.pid ≡ j.pid)) i fg js
              (λ k here p. inr (same k here)) any in
          let bound : j.pid < sign_bit =
            job_at-All (λ j. j.pid < sign_bit) i js j valid.bounded at in
          rw (at, to_fg, finish_job)
            (waitfg-IsShell j.pid (store_state i fg (in_mode prompt s))
              (ground (arith, bound, used)) (listed fg) (small fg) only refl)
    ]

-- What changes no more than the list of what was sent.
pub send-IsShell : (o : Output) (s : Shell) → IsShell s → IsShell (send o s)
send-IsShell o s valid = record {
  table = valid.table;
  bounded = valid.bounded;
  foreground = valid.foreground;
}

chosen-IsShell :
    (cmd : List ℕ) (missing : Output) (found : Option ℕ) (s : Shell)
    → s.mode ≡ prompt
    → IsShell s
    → IsShell (chosen cmd missing found s)
chosen-IsShell cmd missing none s ready valid = send-IsShell missing s valid
chosen-IsShell cmd missing (some i) s ready valid = continue_job-IsShell cmd i s ready valid

do_bgfg-IsShell :
    (cmd : List ℕ) (args : List (List ℕ)) (s : Shell)
    → s.mode ≡ prompt
    → IsShell s
    → IsShell (do_bgfg cmd args s)
unfolding do_bgfg
do_bgfg-IsShell cmd [] s ready valid = send-IsShell (Output.needs_argument cmd) s valid
do_bgfg-IsShell cmd ([] ∷ args) s ready valid = send-IsShell (Output.bad_argument cmd) s valid
do_bgfg-IsShell cmd ((c ∷ digits) ∷ args) s ready valid =
    let pid = atoi (c ∷ digits) in
    elim (Bool-cases (is_digit c)) [
      | inl digit ↦ rw (digit) (
          chosen-IsShell cmd (Output.no_such_process pid) (getjobpid pid s.table.jobs) s ready
            valid)
      | inr other ↦ elim (Bool-cases (c == b'%')) [
        | inl percent ↦
            rw (other, percent)
              (chosen-IsShell cmd (Output.no_such_job (c ∷ digits))
                (getjobjid (atoi digits) s.table.jobs) s ready valid)
        | inr none_of_them ↦
            rw (other, none_of_them) (send-IsShell (Output.bad_argument cmd) s valid)
      ]
    ]

-- The mode and the list of what was sent play no part where the shell has ended.
pub exited-IsShell : (s : Shell) → IsShell s → IsShell (in_mode exited s)
exited-IsShell s valid = record { table = valid.table; bounded = valid.bounded; foreground = tt }

builtin_cmd-IsShell :
    (cmd : List ℕ) (args : List (List ℕ)) (s : Shell)
    → s.mode ≡ prompt
    → IsShell s
    → (builtin_cmd cmd args s ≡ none)
      ⊎ ((s1 : Shell) × (builtin_cmd cmd args s ≡ some s1) × IsShell s1)
unfolding builtin_cmd
builtin_cmd-IsShell cmd args s ready valid = elim (Bool-cases (same_text cmd quit_text)) [
  | inl q ↦ inr (in_mode exited s, rw (q) refl, exited-IsShell s valid)
  | inr nq ↦ elim (Bool-cases (same_text cmd jobs_text)) [
    | inl listing ↦
        let o = Output.jobs_list (listjobs s.table.jobs) in
        inr (send o s, rw (nq, listing) refl, send-IsShell o s valid)
    | inr nl ↦ elim (Bool-cases (same_text cmd bg_text || same_text cmd fg_text)) [
      | inl moved ↦
          inr (do_bgfg cmd args s, rw (nq, nl, moved) refl, do_bgfg-IsShell cmd args s ready valid)
      | inr other ↦ inl (rw (nq, nl, other) refl)
    ]
  ]
]

pub run_argv-IsShell :
    (background : Bool) (argv : List (List ℕ)) (cmdline : List ℕ) (pid : ℕ) (s : Shell)
    → is_positive pid ≡ true
    → lookup pid s.table.jobs ≡ none
    → s.mode ≡ prompt
    → IsShell s
    → IsShell (run_argv background argv cmdline pid s)
run_argv-IsShell background [] cmdline pid s pos fresh ready valid = valid
run_argv-IsShell background (cmd ∷ args) cmdline pid s pos fresh ready valid =
    elim (builtin_cmd-IsShell cmd args s ready valid) [
      | inl other ↦
          rw (other, run_argv) (launch-IsShell background cmdline pid s pos fresh ready valid)
      | inr (s1, done, kept) ↦ rw (done, run_argv) kept
    ]
