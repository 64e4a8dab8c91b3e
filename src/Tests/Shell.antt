-- ===== src/Tests/Shell.antt =====
-- The shell on concrete commands and signals.
use computer_systems_labs.Base.{
  ℕ, ◌*◌, ◌≤◌, ◌<◌, ◌≡◌, ◌≢◌, ◌⊎◌, inr, refl, arith, Bool, true, false, none, some, List, [], ◌∷◌,
  All, length, ◌==◌, if◌then◌else◌,
}
use computer_systems_labs.Shell.Jobs.{
  fg, bg, st, Job, Table, cleared, initjobs, fill_free, addjob, deletejob, clear_pid, fgpid,
  find_index, getjobpid, getjobjid, pid2jid, pid2jid_loop,
}
use computer_systems_labs.Shell.Jobs.Laws.{lookup}
use computer_systems_labs.Shell.Jobs.Map.{IsTable, added_job, addjob_lem, deletejob_lem}
use computer_systems_labs.Shell.Line.{
  replace_last, skip_spaces, split_at, next_token, build_argv, starts_with, is_background,
  drop_last, parseline,
}
use computer_systems_labs.Shell.Line.Laws.{parseline_lem}
use computer_systems_labs.Shell.Line.Quoted.{quoted, line_end, parseline-quoted}
use computer_systems_labs.Shell.Control.{
  Shell, sigint, sigcont, sigstop, sigint_handler, sigtstp_handler, resuming, finish_job, ended,
  reap, kill, send, prompt, waiting, crashed, stopped, job_at, set_state, waitfg, wait_round,
  continue_job, do_bgfg, builtin_cmd, launch, eval, sigchld_handler, fg_text,
}
use computer_systems_labs.Shell.Control.Numbers.{atoi, digits_value}
use computer_systems_labs.Shell.Control.Invariant.{IsShell}
use computer_systems_labs.Shell.Control.Runs.{Reach, here, next, command, started, Reach-IsShell}
use computer_systems_labs.Shell.Control.Signals.{handlers-waiting, wait_round-reap}
use computer_systems_labs.Shell.Control.Full.{full_table-crashed}

abbrev entries : List Job
entries = cleared ∷ cleared ∷ []

-- `a 'b c' &` and its end.
abbrev command_line : List ℕ
command_line = b'a' ∷ b' ' ∷ b'\'' ∷ b'b' ∷ b' ' ∷ b'c' ∷ b'\'' ∷ b' ' ∷ b'&' ∷ b'\n' ∷ []

parsed_line : parseline command_line ≡ some ((b'a' ∷ []) ∷ (b'b' ∷ b' ' ∷ b'c' ∷ []) ∷ [], true)
unfolding parseline build_argv replace_last skip_spaces next_token split_at is_background
    starts_with drop_last
parsed_line = refl

parseline_example :
    (argv : List (List ℕ)) × (background : Bool) × (parseline command_line
      ≡ some (argv, background))
    × (2 * length argv ≤ length command_line)
parseline_example = parseline_lem command_line

parseline-quoted_example :
    parseline (quoted ((b'l' ∷ b's' ∷ []) ∷ (b'a' ∷ b' ' ∷ []) ∷ []) (line_end false))
    ≡ some ((b'l' ∷ b's' ∷ []) ∷ (b'a' ∷ b' ' ∷ []) ∷ [], false)
unfolding is_background starts_with
parseline-quoted_example =
    parseline-quoted ((b'l' ∷ b's' ∷ []) ∷ (b'a' ∷ b' ' ∷ []) ∷ []) false
      ((ground arith, (ground arith, tt)), ((ground arith, (ground arith, tt)), tt)) (inr refl)

-- One job waits in the foreground.
abbrev sleeper : Job
sleeper = record { pid = 70; jid = 1; state = fg; cmdline = b's' ∷ b'\n' ∷ [] }

abbrev one_job : Table
one_job = record { jobs = sleeper ∷ cleared ∷ []; nextjid = 2 }

abbrev busy : Shell
busy = record { table = one_job; mode = waiting 70; output = [] }

launched : eval (b's' ∷ b'\n' ∷ []) 70 (started entries) ≡ some busy
unfolding eval parseline build_argv replace_last skip_spaces next_token split_at is_background
    starts_with drop_last builtin_cmd launch waitfg addjob fill_free getjobpid find_index initjobs
launched = refl

busy-Reach : Reach (started entries) busy
unfolding lookup initjobs
busy-Reach = next here (command (b's' ∷ b'\n' ∷ []) 70 refl refl refl launched)

Reach-IsShell_example : IsShell busy
Reach-IsShell_example = Reach-IsShell entries busy busy-Reach

one_job-IsTable : IsTable one_job
one_job-IsTable = (Reach-IsShell entries busy busy-Reach).table

addjob_example :
    (((addjob 71 bg [] one_job).0 ≡ false)
      × ((addjob 71 bg [] one_job).1 ≡ one_job)
      × All (λ j. j.pid ≢ 0) one_job.jobs)
    ⊎ ((addjob 71 bg [] one_job).0 ≡ true)
      × IsTable (addjob 71 bg [] one_job).1
      × ((q : ℕ)
          → 0 < q
          → lookup q (addjob 71 bg [] one_job).1.jobs
            ≡ (if q == 71 then some (added_job 71 bg [] one_job) else lookup q one_job.jobs))
unfolding lookup
addjob_example = addjob_lem 71 bg [] one_job refl refl one_job-IsTable

deletejob_example :
    (((deletejob 70 one_job).0 ≡ false)
      × ((deletejob 70 one_job).1 ≡ one_job)
      × (lookup 70 one_job.jobs ≡ none))
    ⊎ ((deletejob 70 one_job).0 ≡ true)
      × IsTable (deletejob 70 one_job).1
      × ((q : ℕ)
          → 0 < q
          → lookup q (deletejob 70 one_job).1.jobs
            ≡ (if q == 70 then none else lookup q one_job.jobs))
deletejob_example = deletejob_lem 70 one_job refl one_job-IsTable

handlers-waiting_example :
    (sigint_handler busy
      ≡ (if fgpid busy.table.jobs == 70 then send (kill 70 sigint) busy else busy))
    × (sigtstp_handler busy
        ≡ (if fgpid busy.table.jobs == 70 then send (kill 70 sigstop) busy else busy))
handlers-waiting_example =
    handlers-waiting 70 busy refl refl (Reach-IsShell entries busy busy-Reach)

some_listed : {j : Job} → some j ≢ none
some_listed {j} e = ground (arith, e)

wait_round-reap_example : (wait_round (sigchld_handler ((70, stopped 20) ∷ []) busy)).mode ≡ prompt
unfolding lookup
wait_round-reap_example =
    wait_round-reap 70 (stopped 20) busy refl refl some_listed
      (Reach-IsShell entries busy busy-Reach)

-- `fg %1` at the prompt, on a job that was stopped.
abbrev at_rest : Shell
at_rest = record {
  table = record { jobs = record sleeper { state = st } ∷ cleared ∷ []; nextjid = 2 };
  mode = prompt;
  output = [];
}

-- The signal is sent, and the state is not stored yet.
abbrev signalled : Shell
signalled = record at_rest { mode = resuming fg_text 0; output = kill 70 sigcont ∷ [] }

foreground_again :
    (do_bgfg fg_text ((b'%' ∷ b'1' ∷ []) ∷ []) at_rest ≡ signalled)
    × (finish_job fg_text 0 signalled ≡ send (kill 70 sigcont) busy)
unfolding do_bgfg continue_job finish_job getjobjid getjobpid find_index job_at set_state waitfg
    atoi digits_value
foreground_again = (refl, refl)

-- Where the job ends in between, an entry that is cleared is marked as in the foreground.
foreground_of_nobody :
    (finish_job fg_text 0 (sigchld_handler ((70, ended) ∷ []) signalled)).table.jobs
    ≡ record cleared { state = fg } ∷ cleared ∷ []
unfolding finish_job sigchld_handler reap deletejob clear_pid job_at set_state waitfg
foreground_of_nobody = refl

abbrev full_shell : Shell
full_shell = record {
  table = record { jobs = record sleeper { state = bg } ∷ []; nextjid = 2 };
  mode = prompt;
  output = [];
}

full_table-crashed_example :
    (launch false (b's' ∷ b'\n' ∷ []) 71 full_shell ≡ full_shell)
    × ((sigchld_handler
          ((71, stopped 20) ∷ [])
          (launch false (b's' ∷ b'\n' ∷ []) 71 full_shell)).mode
        ≡ crashed)
unfolding lookup
full_table-crashed_example =
    full_table-crashed (b's' ∷ b'\n' ∷ []) 71 20 full_shell refl refl refl (ground arith, tt)

-- A job of number 1 that lives on while the numbers wrap around gets a namesake.
abbrev wrapping : Table
wrapping = record { jobs = record sleeper { state = bg } ∷ cleared ∷ cleared ∷ []; nextjid = 16 }

abbrev wrapped : Table
wrapped = (addjob 72 bg [] (addjob 71 bg [] wrapping).1).1

number_twice : (pid2jid 70 wrapped.jobs ≡ 1) × (pid2jid 72 wrapped.jobs ≡ 1)
unfolding pid2jid pid2jid_loop addjob fill_free
number_twice = (refl, refl)
