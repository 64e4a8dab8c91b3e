-- ===== src/Shell/Control/Full.antt =====
-- tsh.cc: a child that the job list has no room for.
use computer_systems_labs.Base.{
  ℕ, ◌≡◌, ◌≢◌, inl, inr, refl, ap, ◌∙◌, true, false, Bool-cases, none, List, [], ◌∷◌, All, leb,
  ◌==◌, arith, sign_bit,
}
use computer_systems_labs.Shell.Jobs.{
  JobState, fg, Job, Table, is_positive, fill_free, addjob, getjobpid,
}
use computer_systems_labs.Shell.Jobs.Laws.{lookup}
use computer_systems_labs.Shell.Jobs.Map.{added_job}
use computer_systems_labs.Shell.Control.{
  prompt, crashed, Shell, stopped, waitfg, launch, reap, sigchld_handler,
}
use computer_systems_labs.Shell.Control.Entries.{lookup-getjobpid}
use computer_systems_labs.Shell.Control.Signals.{sigchld_handler-prompt}

full-fill_free : (new : Job) (js : List Job) → All (λ j. j.pid ≢ 0) js → fill_free new js ≡ none
unfolding fill_free
full-fill_free new [] full = refl
full-fill_free new (j ∷ js) full = ground (arith, full.0, full-fill_free new js full.1)

full-addjob :
    (pid : ℕ) (state : JobState) (cmdline : List ℕ) (t : Table)
    → All (λ j. j.pid ≢ 0) t.jobs
    → (addjob pid state cmdline t).1 ≡ t
unfolding addjob
full-addjob pid state cmdline t full = elim (Bool-cases (is_positive pid)) [
  | inr bad ↦ rw (bad) refl
  | inl pos ↦ rw (pos, full-fill_free (added_job pid state cmdline t) t.jobs full) refl
]

waitfg-missing : (pid : ℕ) (s : Shell) → getjobpid pid s.table.jobs ≡ none → waitfg pid s ≡ s
unfolding waitfg
waitfg-missing pid s missing = elim (Bool-cases (pid == 0)) [
  | inl nobody ↦ rw (nobody) refl
  | inr somebody ↦ rw (somebody, missing) refl
]

reap-missing :
    (pid signal : ℕ) (s : Shell)
    → getjobpid pid s.table.jobs ≡ none
    → (reap pid (stopped signal) s).mode ≡ crashed
unfolding reap
reap-missing pid signal s missing = rw (missing, reap) refl

launch-full :
    (cmdline : List ℕ) (pid : ℕ) (s : Shell)
    → is_positive pid ≡ true
    → lookup pid s.table.jobs ≡ none
    → All (λ j. j.pid ≢ 0) s.table.jobs
    → launch false cmdline pid s ≡ s
unfolding launch
launch-full cmdline pid s pos fresh full =
    let forked : leb sign_bit pid ≡ false = ground (arith, pos) in
    let same : record s { table = (addjob pid fg cmdline s.table).1 } ≡ s =
      ap (λ t. record s { table = t }) (full-addjob pid fg cmdline s.table full) in
    rw (forked)
      (ap (waitfg pid) same ∙ waitfg-missing pid s (lookup-getjobpid pid s.table.jobs fresh))

-- Where every entry of the job list is in use, a command in the foreground is not waited for and its
-- child is not listed; when that child stops, the shell crashes.
pub full_table-crashed :
    (cmdline : List ℕ) (pid signal : ℕ) (s : Shell)
    → s.mode ≡ prompt
    → is_positive pid ≡ true
    → lookup pid s.table.jobs ≡ none
    → All (λ j. j.pid ≢ 0) s.table.jobs
    → (launch false cmdline pid s ≡ s)
      × ((sigchld_handler ((pid, stopped signal) ∷ []) (launch false cmdline pid s)).mode ≡ crashed)
full_table-crashed cmdline pid signal s ready pos fresh full =
    let unwatched = launch-full cmdline pid s pos fresh full in
    let missing = lookup-getjobpid pid s.table.jobs fresh in
    let once = sigchld_handler-prompt pid (stopped signal) s ready in
    (unwatched, rw (unwatched, once) (reap-missing pid signal s missing))
