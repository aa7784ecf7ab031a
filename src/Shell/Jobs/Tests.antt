-- ===== src/Shell/Jobs/Tests.antt =====
-- Runs of the job list.
use snu_projects.Base.{ℕ, ◌<◌, ◌≡◌, ◌≢◌, refl, ◌⊎◌, List, [], ◌∷◌, none, arith, length, replicate}
use snu_projects.Shell.Jobs.{
  Shell, foreground, background, cleared, initjobs, job_at, addjob, deletejob, getjobpid, position,
  fgpid,
}
use snu_projects.Shell.Jobs.Laws.{IsValid}
use snu_projects.Shell.Jobs.Update.{
  Added, Deleted, addjob_lem, deletejob_lem, addjob-IsValid, initjobs-IsValid,
}

abbrev no_jobs : Shell
no_jobs = record { jobs = initjobs (replicate 2 cleared); nextjid = 1 }

-- The command line "a".
abbrev one_job : Shell
one_job = (addjob 700 foreground (97 ∷ []) no_jobs).1

one_job-IsValid : IsValid one_job.jobs
unfolding initjobs getjobpid position fgpid
one_job-IsValid =
    addjob-IsValid 700 foreground (97 ∷ []) no_jobs (initjobs-IsValid (replicate 2 cleared))
      (omega arith) refl (λ e. refl)

addjob_lem_example :
    ((sh' : Shell) × (addjob 800 background [] one_job ≡ (1, sh'))
      × Added 800 background [] one_job sh')
    ⊎ ((addjob 800 background [] one_job ≡ (0, one_job))
        × ((j : ℕ) → j < length one_job.jobs → (job_at one_job.jobs j).pid ≢ 0))
unfolding addjob initjobs getjobpid position
addjob_lem_example =
    addjob_lem 800 background [] one_job one_job-IsValid (omega arith) refl (λ e. absurd cc)

deletejob_lem_example :
    ((sh' : Shell) × (deletejob 700 one_job ≡ (1, sh')) × Deleted 700 one_job sh')
    ⊎ ((deletejob 700 one_job ≡ (0, one_job)) × (getjobpid one_job.jobs 700 ≡ none))
deletejob_lem_example = deletejob_lem 700 one_job one_job-IsValid (omega arith)

-- With the jobs 1 to 15, job 2 deleted, and two more jobs, the jid 1 is given twice.
abbrev with_pids : List ℕ → Shell → Shell
with_pids [] sh = sh
with_pids (p ∷ pids) sh = with_pids pids (addjob p background [] sh).1

abbrev fifteen : List ℕ
fifteen = 1 ∷ 2 ∷ 3 ∷ 4 ∷ 5 ∷ 6 ∷ 7 ∷ 8 ∷ 9 ∷ 10 ∷ 11 ∷ 12 ∷ 13 ∷ 14 ∷ 15 ∷ []

abbrev twins : Shell
twins =
    with_pids (16 ∷ 17 ∷ [])
      (deletejob 2 (with_pids fifteen (record { jobs = replicate 16 cleared; nextjid = 1 }))).1

twins_share : ((job_at twins.jobs 0).jid ≡ 1) × ((job_at twins.jobs 15).jid ≡ 1)
unfolding addjob deletejob position
twins_share = (refl, refl)
