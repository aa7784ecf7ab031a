-- ===== src/Shell/Jobs.antt =====
-- The job list of shlab/shlab/tsh.c. A pointer to an entry is the entry's index, and `NULL` is
-- `none`. A pid or a jid is a number; callers pass 0 for a negative one, which the functions treat
-- alike.

pub mod Laws
pub mod Update
mod Tests
use snu_projects.Base.{
  ℕ, zero, suc, ◌+◌, Bool, true, false, List, [], ◌∷◌, map, Option, none, some, ◌==◌, ltb,
  if◌then◌else◌, get_or, set,
}

-- `MAXJOBS`
abbrev pub max_jobs : ℕ
max_jobs = 16

-- `UNDEF`, `FG`, `BG`, `ST`
pub data JobState : Type 0 where
  undefined foreground background stopped : JobState

-- `struct job_t`
pub record Job : Type 0 where
  pub pid : ℕ
  pub jid : ℕ
  pub state : JobState
  pub cmdline : List ℕ

-- The globals `jobs` and `nextjid`.
pub record Shell : Type 0 where
  pub jobs : List Job
  pub nextjid : ℕ

-- What `clearjob` leaves.
abbrev pub cleared : Job
cleared = record { pid = 0; jid = 0; state = undefined; cmdline = [] }

-- `initjobs`
unfoldable pub initjobs : List Job → List Job
initjobs jobs = map (λ job. cleared) jobs

abbrev pub job_at : List Job → ℕ → Job
job_at jobs i = get_or jobs i cleared

-- One turn of a loop that looks for the first entry of which a test holds.
unfoldable pub found_at : Bool → Option ℕ → Option ℕ
found_at true rest = some 0
found_at false none = none
found_at false (some i) = some (i + 1)

-- Such a loop.
unfoldable pub position : (Job → Bool) → List Job → Option ℕ
unfolding found_at
position test [] = none
position test (job ∷ jobs) = found_at (test job) (position test jobs)

max_from : ℕ → List Job → ℕ
max_from max [] = max
max_from max (job ∷ jobs) = max_from (if ltb max job.jid then job.jid else max) jobs

-- `maxjid`
pub maxjid : List Job → ℕ
unfolding max_from
maxjid jobs = max_from 0 jobs

-- The body of the loop of `addjob` at a free entry.
fill : ℕ → (pid : ℕ) → JobState → (cmdline : List ℕ) → Shell → Shell
fill i pid state cmdline sh = record {
  jobs = set sh.jobs i (record { pid = pid; jid = sh.nextjid; state = state; cmdline = cmdline });
  nextjid = if ltb max_jobs (sh.nextjid + 1) then 1 else sh.nextjid + 1;
}

-- The loop of `addjob`, when the search for a free entry has ended.
add_at : Option ℕ → (pid : ℕ) → JobState → (cmdline : List ℕ) → Shell → ℕ × Shell
unfolding fill
add_at none pid state cmdline sh = (0, sh)
add_at (some i) pid state cmdline sh = (1, fill i pid state cmdline sh)

-- `addjob`
unfoldable pub addjob : (pid : ℕ) → JobState → (cmdline : List ℕ) → Shell → ℕ × Shell
unfolding add_at
addjob pid state cmdline sh =
    if ltb pid 1
    then (0, sh)
    else add_at (position (λ job. job.pid == 0) sh.jobs) pid state cmdline sh

-- The body of the loop of `deletejob` at the entry that it looks for.
clear : ℕ → Shell → Shell
unfolding maxjid
clear i sh =
    let jobs : List Job = set sh.jobs i cleared in record { jobs = jobs; nextjid = maxjid jobs + 1 }

-- The loop of `deletejob`, when the search for the job has ended.
delete_at : Option ℕ → Shell → ℕ × Shell
unfolding clear
delete_at none sh = (0, sh)
delete_at (some i) sh = (1, clear i sh)

-- `deletejob`
unfoldable pub deletejob : (pid : ℕ) → Shell → ℕ × Shell
unfolding delete_at
deletejob pid sh =
    if ltb pid 1 then (0, sh) else delete_at (position (λ job. job.pid == pid) sh.jobs) sh

abbrev pub is_foreground : JobState → Bool
is_foreground foreground = true
is_foreground _ = false

pid_at : List Job → Option ℕ → ℕ
pid_at jobs none = 0
pid_at jobs (some i) = (job_at jobs i).pid

-- `fgpid`
unfoldable pub fgpid : List Job → ℕ
unfolding pid_at
fgpid jobs = pid_at jobs (position (λ job. is_foreground job.state) jobs)

-- `getjobpid`
unfoldable pub getjobpid : List Job → ℕ → Option ℕ
getjobpid jobs pid = if ltb pid 1 then none else position (λ job. job.pid == pid) jobs

-- `getjobjid`
unfoldable pub getjobjid : List Job → ℕ → Option ℕ
getjobjid jobs jid = if ltb jid 1 then none else position (λ job. job.jid == jid) jobs

jid_at : List Job → Option ℕ → ℕ
jid_at jobs none = 0
jid_at jobs (some i) = (job_at jobs i).jid

-- `pid2jid`
unfoldable pub pid2jid : List Job → ℕ → ℕ
unfolding getjobpid jid_at
pid2jid jobs pid = jid_at jobs (getjobpid jobs pid)
