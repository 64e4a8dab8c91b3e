-- ===== src/Shell/Jobs/Map.antt =====
-- jobs.cc: `addjob` and `deletejob` as the insertion and the removal of a map.
use computer_systems_labs.Base.{
  ℕ, ◌<◌, ◌≡◌, ◌≢◌, ◌⊎◌, inl, inr, refl, true, false, Bool-cases, none, some, Option-cases, List,
  [], ◌∷◌, All, ◌==◌, if◌then◌else◌, arith,
}
use computer_systems_labs.Shell.Jobs.{
  JobState, Job, Table, is_positive, cleared, fill_free, addjob, clear_pid, deletejob,
}
use computer_systems_labs.Shell.Jobs.Laws.{
  IsSlot, DistinctPids, lookup, lookup-fill_free, fill_free-All, clear_pid-All,
  fill_free-DistinctPids, clear_pid-DistinctPids, lookup-clear_pid,
}

pub record IsTable (t : Table) : Type 0 where
  pub slots : All IsSlot t.jobs
  pub distinct : DistinctPids t.jobs

fill_free-full : (new : Job) (js : List Job) → fill_free new js ≡ none → All (λ j. j.pid ≢ 0) js
unfolding fill_free
fill_free-full new [] e = tt
fill_free-full new (j ∷ js) e = elim (Bool-cases (j.pid == 0)) [
  | inl free ↦ ground (arith, e, free)
  | inr used ↦ elim (Option-cases (fill_free new js)) [
    | inl full ↦ (ground (arith, used), fill_free-full new js full)
    | inr (rest, found) ↦ ground (arith, e, used, found)
  ]
]

clear_pid-missing : (pid : ℕ) (js : List Job) → clear_pid pid js ≡ none → lookup pid js ≡ none
unfolding clear_pid lookup
clear_pid-missing pid [] e = refl
clear_pid-missing pid (j ∷ js) e = elim (Bool-cases (j.pid == pid)) [
  | inl here ↦ ground (arith, e, here)
  | inr other ↦ elim (Option-cases (clear_pid pid js)) [
    | inl missing ↦ ground (arith, other, clear_pid-missing pid js missing)
    | inr (rest, found) ↦ ground (arith, e, other, found)
  ]
]

-- The job that `addjob` makes.
abbrev pub added_job : ℕ → JobState → List ℕ → Table → Job
added_job pid state cmdline t = record {
  pid = pid;
  jid = t.nextjid;
  state = state;
  cmdline = cmdline;
}

-- With a positive number that no job has, on a list whose entries are jobs with different numbers or
-- cleared, `addjob` either finds every entry in use and changes nothing, or it makes the job with that
-- number the new one, leaves the other jobs, and keeps the list so.
pub addjob_lem :
    (pid : ℕ) (state : JobState) (cmdline : List ℕ) (t : Table)
    → is_positive pid ≡ true
    → lookup pid t.jobs ≡ none
    → IsTable t
    → (((addjob pid state cmdline t).0 ≡ false)
        × ((addjob pid state cmdline t).1 ≡ t)
        × All (λ j. j.pid ≢ 0) t.jobs)
      ⊎ ((addjob pid state cmdline t).0 ≡ true)
        × IsTable (addjob pid state cmdline t).1
        × ((q : ℕ)
            → 0 < q
            → lookup q (addjob pid state cmdline t).1.jobs
              ≡ (if q == pid then some (added_job pid state cmdline t) else lookup q t.jobs))
unfolding addjob
addjob_lem pid state cmdline t pos fresh valid =
    let new = added_job pid state cmdline t in
    elim (Option-cases (fill_free new t.jobs)) [
      | inl full ↦ inl (rw (pos, full) (refl, refl, fill_free-full new t.jobs full))
      | inr (js, found) ↦
          let slot : IsSlot new = record {
            free = inl (ground (arith, pos));
            free_jid = inl (ground (arith, pos));
            free_state = inl (ground (arith, pos));
          } in
          inr (
            rw (pos, found)
              (
                refl,
                record {
                  slots = fill_free-All IsSlot new t.jobs js slot valid.slots found;
                  distinct = fill_free-DistinctPids new t.jobs js fresh valid.distinct found;
                },
                λ q hq. lookup-fill_free q new t.jobs js hq found fresh,
              ))
    ]

-- With a positive number, on such a list, `deletejob` either finds no job with it and changes nothing,
-- or it removes that job, leaves the other jobs, and keeps the list so.
pub deletejob_lem :
    (pid : ℕ) (t : Table)
    → is_positive pid ≡ true
    → IsTable t
    → (((deletejob pid t).0 ≡ false) × ((deletejob pid t).1 ≡ t) × (lookup pid t.jobs ≡ none))
      ⊎ ((deletejob pid t).0 ≡ true)
        × IsTable (deletejob pid t).1
        × ((q : ℕ)
            → 0 < q
            → lookup q (deletejob pid t).1.jobs ≡ (if q == pid then none else lookup q t.jobs))
unfolding deletejob
deletejob_lem pid t pos valid = elim (Option-cases (clear_pid pid t.jobs)) [
  | inl missing ↦ inl (rw (pos, missing) (refl, refl, clear_pid-missing pid t.jobs missing))
  | inr (js, found) ↦
      let slot : IsSlot cleared = record {
        free = inr (refl, refl, refl);
        free_jid = inr refl;
        free_state = inr refl;
      } in
      inr (
        rw (pos, found)
          (
            refl,
            record {
              slots = clear_pid-All IsSlot pid t.jobs js slot valid.slots found;
              distinct = clear_pid-DistinctPids pid t.jobs js valid.distinct found;
            },
            λ q hq. lookup-clear_pid q pid t.jobs js hq (ground (arith, pos)) valid.distinct found,
          ))
]

pub addjob-All :
    (P : Job → Type 0) (pid : ℕ) (state : JobState) (cmdline : List ℕ) (t : Table)
    → P (added_job pid state cmdline t)
    → All P t.jobs
    → All P (addjob pid state cmdline t).1.jobs
unfolding addjob
addjob-All P pid state cmdline t pn all = elim (Bool-cases (is_positive pid)) [
  | inr bad ↦ rw (bad) all
  | inl pos ↦
      let new = added_job pid state cmdline t in
      elim (Option-cases (fill_free new t.jobs)) [
        | inl full ↦ rw (pos, full) all
        | inr (js, found) ↦ rw (pos, found) (fill_free-All P new t.jobs js pn all found)
      ]
]

pub addjob-IsTable :
    (pid : ℕ) (state : JobState) (cmdline : List ℕ) (t : Table)
    → is_positive pid ≡ true
    → lookup pid t.jobs ≡ none
    → IsTable t
    → IsTable (addjob pid state cmdline t).1
addjob-IsTable pid state cmdline t pos fresh valid =
    elim (addjob_lem pid state cmdline t pos fresh valid) [
      | inl (refused, same, full) ↦ rw (same) valid
      | inr (made, kept, found) ↦ kept
    ]

pub deletejob-All :
    (P : Job → Type 0) (pid : ℕ) (t : Table)
    → P cleared
    → All P t.jobs
    → All P (deletejob pid t).1.jobs
unfolding deletejob
deletejob-All P pid t pc all = elim (Bool-cases (is_positive pid)) [
  | inr bad ↦ rw (bad) all
  | inl pos ↦ elim (Option-cases (clear_pid pid t.jobs)) [
    | inl missing ↦ rw (pos, missing) all
    | inr (js, found) ↦ rw (pos, found) (clear_pid-All P pid t.jobs js pc all found)
  ]
]

pub deletejob-IsTable : (pid : ℕ) (t : Table) → IsTable t → IsTable (deletejob pid t).1
deletejob-IsTable pid t valid = elim (Bool-cases (is_positive pid)) [
  | inr bad ↦ unfold deletejob in rw (bad) valid
  | inl pos ↦ elim (deletejob_lem pid t pos valid) [
    | inl (refused, same, missing) ↦ rw (same) valid
    | inr (gone, kept, found) ↦ kept
  ]
]
