-- ===== src/Shell/Control.antt =====
-- tsh.cc: `eval`, the built-in commands and the signal handlers, on the job list and a mode that says
-- whether the shell reads commands, is in the loop of `waitfg`, or is in `do_bgfg` between the signal
-- to a job and the store of its state, where a signal handler may run. What it sends and prints is a list,
-- the latest first. What fork and waitpid return is an argument; the masks around them never fail.
pub mod Numbers
pub mod Entries
pub mod Invariant
pub mod Commands
pub mod Runs
pub mod Signals
pub mod Full
use computer_systems_labs.Base.{
  ℕ, zero, suc, ◌+◌, ◌-◌, Bool, true, false, not, ◌||◌, Option, none, some, List, [], ◌∷◌, leb,
  ◌==◌, if◌then◌else◌, sign_bit, ◌>>=◌,
}
use computer_systems_labs.Shell.Jobs.{
  JobState, fg, bg, st, Job, Table, addjob, deletejob, fgpid, getjobpid, getjobjid, pid2jid,
  listjobs,
}
use computer_systems_labs.Shell.Line.{parseline}
use computer_systems_labs.Shell.Control.Numbers.{is_digit, atoi}

pub data Signal : Type 0 where
  sigcont sigint sigstop : Signal

-- `kill(-pid, signal)`, and what is printed.
pub data Output : Type 0 where
  kill : ℕ → Signal → Output
  jobs_list : List Job → Output
  job_line : ℕ → ℕ → List ℕ → Output
  needs_argument bad_argument no_such_job : List ℕ → Output
  no_such_process : ℕ → Output
  job_stopped job_terminated : ℕ → ℕ → ℕ → Output

pub data Mode : Type 0 where
  prompt exited crashed : Mode
  waiting : ℕ → Mode
  resuming : List ℕ → ℕ → Mode

pub record Shell : Type 0 where
  pub table : Table
  pub mode : Mode
  pub output : List Output

-- What waitpid says of a child, with the number of the signal.
pub data Status : Type 0 where
  stopped signaled : ℕ → Status
  ended : Status

abbrev pub send : Output → Shell → Shell
send o s = record s { output = o ∷ s.output }

abbrev pub in_mode : Mode → Shell → Shell
in_mode m s = record s { mode = m }

-- `cmd == "…"`
abbrev pub same_text : List ℕ → List ℕ → Bool
same_text [] [] = true
same_text [] (d ∷ t) = false
same_text (c ∷ s) [] = false
same_text (c ∷ s) (d ∷ t) = let rest = same_text s t in if c == d then rest else false

abbrev pub quit_text : List ℕ
quit_text = b'q' ∷ b'u' ∷ b'i' ∷ b't' ∷ []

abbrev pub jobs_text : List ℕ
jobs_text = b'j' ∷ b'o' ∷ b'b' ∷ b's' ∷ []

abbrev pub bg_text : List ℕ
bg_text = b'b' ∷ b'g' ∷ []

abbrev pub fg_text : List ℕ
fg_text = b'f' ∷ b'g' ∷ []

-- What the pointer to an entry reads, and a store to its `state`.
unfoldable pub job_at : ℕ → List Job → Option Job
job_at i [] = none
job_at i (j ∷ js) = if i == 0 then some j else job_at (i - 1) js

unfoldable pub set_state : ℕ → JobState → List Job → List Job
set_state i state [] = []
set_state i state (j ∷ js) =
    if i == 0 then record j { state = state } ∷ js else j ∷ set_state (i - 1) state js

abbrev pub store_state : ℕ → JobState → Shell → Shell
store_state i state s = record s {
  table = record { jobs = set_state i state s.table.jobs; nextjid = s.table.nextjid };
}

-- The loop is entered; a round of it is `wait_round`.
unfoldable pub waitfg : ℕ → Shell → Shell
waitfg pid s =
    if pid == 0
    then s
    else elim (getjobpid pid s.table.jobs) [ none ↦ s | some i ↦ in_mode (waiting pid) s ]

-- `while(pid == fgpid(jobs))`
unfoldable pub wait_round : Shell → Shell
wait_round s = elim s.mode [
  | prompt ↦ s
  | exited ↦ s
  | crashed ↦ s
  | resuming cmd i ↦ s
  | waiting pid ↦ if pid == fgpid s.table.jobs then s else in_mode prompt s
]

-- The part of `do_bgfg` up to the signal, for the entry at an index, which it keeps a pointer to.
unfoldable pub continue_job : List ℕ → ℕ → Shell → Shell
continue_job cmd i s = elim (job_at i s.table.jobs) [
  | none ↦ in_mode crashed s
  | some j ↦ in_mode (resuming cmd i) (send (kill j.pid sigcont) s)
]

-- The part of `do_bgfg` behind the signal, which reads the entry again.
unfoldable pub finish_job : List ℕ → ℕ → Shell → Shell
finish_job cmd i s = elim (job_at i s.table.jobs) [
  | none ↦ in_mode crashed s
  | some j ↦
      let s1 = in_mode prompt s in
      if same_text cmd bg_text
      then send (job_line j.jid j.pid j.cmdline) (store_state i bg s1)
      else waitfg j.pid (store_state i fg s1)
]

abbrev pub chosen : List ℕ → Output → Option ℕ → Shell → Shell
chosen cmd missing none s = send missing s
chosen cmd missing (some i) s = continue_job cmd i s

unfoldable pub do_bgfg : List ℕ → List (List ℕ) → Shell → Shell
do_bgfg cmd [] s = send (needs_argument cmd) s
do_bgfg cmd ([] ∷ args) s = send (bad_argument cmd) s
do_bgfg cmd ((c ∷ digits) ∷ args) s =
    let pid = atoi (c ∷ digits) in
    if is_digit c
    then chosen cmd (no_such_process pid) (getjobpid pid s.table.jobs) s
    else if c == b'%'
    then chosen cmd (no_such_job (c ∷ digits)) (getjobjid (atoi digits) s.table.jobs) s
    else send (bad_argument cmd) s

-- `none` where the command is not built in.
unfoldable pub builtin_cmd : List ℕ → List (List ℕ) → Shell → Option Shell
builtin_cmd cmd args s =
    if same_text cmd quit_text
    then some (in_mode exited s)
    else if same_text cmd jobs_text
    then some (send (jobs_list (listjobs s.table.jobs)) s)
    else if same_text cmd bg_text || same_text cmd fg_text
    then some (do_bgfg cmd args s)
    else none

-- The parent's part of `eval` behind `Fork`, which ends the shell where fork fails.
unfoldable pub launch : Bool → List ℕ → ℕ → Shell → Shell
launch background cmdline pid s =
    if leb sign_bit pid
    then in_mode exited s
    else if not background
    then waitfg pid (record s { table = (addjob pid fg cmdline s.table).1 })
    else let s1 = record s { table = (addjob pid bg cmdline s.table).1 } in
      send (job_line (pid2jid pid s1.table.jobs) pid cmdline) s1

abbrev pub run_argv : Bool → List (List ℕ) → List ℕ → ℕ → Shell → Shell
run_argv background [] cmdline pid s = s
run_argv background (cmd ∷ args) cmdline pid s = elim (builtin_cmd cmd args s) [
  | none ↦ launch background cmdline pid s
  | some s1 ↦ s1
]

unfoldable pub eval : List ℕ → ℕ → Shell → Option Shell
eval cmdline pid s = do
  (argv, background) ← parseline cmdline
  some (run_argv background argv cmdline pid s)

-- A round of the loop of `sigchld_handler`; the pointer of a stopped job is not tested.
unfoldable pub reap : ℕ → Status → Shell → Shell
reap pid (stopped signal) s = elim (getjobpid pid s.table.jobs) [
  | none ↦ in_mode crashed s
  | some i ↦
      let s1 = store_state i st s in send (job_stopped (pid2jid pid s1.table.jobs) pid signal) s1
]
reap pid (signaled signal) s =
    let s1 = send (job_terminated (pid2jid pid s.table.jobs) pid signal) s in
    record s1 { table = (deletejob pid s1.table).1 }
reap pid ended s = record s { table = (deletejob pid s.table).1 }

-- After a store through the NULL pointer nothing more runs.
unfoldable pub sigchld_handler : List (ℕ × Status) → Shell → Shell
sigchld_handler [] s = s
sigchld_handler ((pid, status) ∷ more) s = elim s.mode [
  | crashed ↦ s
  | prompt ↦ sigchld_handler more (reap pid status s)
  | exited ↦ sigchld_handler more (reap pid status s)
  | waiting p ↦ sigchld_handler more (reap pid status s)
  | resuming cmd i ↦ sigchld_handler more (reap pid status s)
]

abbrev pub forward : Signal → Shell → Shell
forward signal s =
    let pid = fgpid s.table.jobs in
    if leb sign_bit pid
    then in_mode exited s
    else if not (pid == 0)
    then send (kill pid signal) s
    else s

unfoldable pub sigint_handler : Shell → Shell
sigint_handler s = forward sigint s

unfoldable pub sigtstp_handler : Shell → Shell
sigtstp_handler s = forward sigstop s

unfoldable pub sigquit_handler : Shell → Shell
sigquit_handler s = in_mode exited s
