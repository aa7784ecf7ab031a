-- ===== src/Shell/Command.antt =====
-- The commands and the signal handlers of shlab/shlab/tsh.c. What they print, send or wait for is a
-- list of effects, in order. `atoi`, `fork` and `waitpid` are not of this repository: `atoi` is a
-- parameter, and the results of the others are arguments.
pub mod Laws
mod Tests
use snu_projects.Base.{
  ℕ, zero, suc, Bool, true, false, ◌&&◌, not, List, [], ◌∷◌, ◌++◌, Option, none, some, ◌==◌,
  if◌then◌else◌, set, ◌||◌,
}
use snu_projects.Base.Int.{ℤ, pos, negsuc}
use snu_projects.Shell.Jobs.{
  Job, JobState, Shell, foreground, background, stopped, job_at, addjob, deletejob, fgpid,
  getjobpid, getjobjid, pid2jid,
}
use snu_projects.Shell.Parse.{parseline, starts_with}

-- What the shell does besides its change of state.
pub data Effect : Type 0 where
  usage not_a_number : (command : List ℕ) → Effect
  no_job no_process : ℤ → Effect
  continued waits : (pid : ℕ) → Effect
  sent : (pid signal : ℕ) → Effect
  announced : (jid pid : ℕ) (cmdline : List ℕ) → Effect
  terminated_by stopped_by : (jid pid signal : ℕ) → Effect
  listed : List Job → Effect

-- `!strcmp(s, t)`
pub equal : List ℕ → List ℕ → Bool
equal [] [] = true
equal (c ∷ s) (d ∷ t) = (c == d) && equal s t
equal _ _ = false

abbrev pub percent : ℕ
percent = 37

-- "quit", "&", "fg", "bg" and "jobs"
abbrev pub quit_word : List ℕ
quit_word = 113 ∷ 117 ∷ 105 ∷ 116 ∷ []

abbrev pub ampersand_word : List ℕ
ampersand_word = 38 ∷ []

abbrev pub fg_word : List ℕ
fg_word = 102 ∷ 103 ∷ []

abbrev pub bg_word : List ℕ
bg_word = 98 ∷ 103 ∷ []

abbrev pub jobs_word : List ℕ
jobs_word = 106 ∷ 111 ∷ 98 ∷ 115 ∷ []

-- A negative number is no pid and no jid, as 0 is.
abbrev pub number_of : ℤ → ℕ
number_of (pos n) = n
number_of (negsuc _) = 0

-- `job->state = state`
pub set_job_state : ℕ → JobState → Shell → Shell
set_job_state i state sh = record sh {
  jobs = set sh.jobs i (record (job_at sh.jobs i) { state = state });
}

-- The end of `do_bgfg`, with the job that it has found.
pub resume_job : (command : List ℕ) → ℕ → Shell → Shell × List Effect
unfolding equal set_job_state
resume_job command i sh =
    let job = job_at sh.jobs i in
    if equal command fg_word
    then (set_job_state i foreground sh, continued job.pid ∷ waits job.pid ∷ [])
    else if equal command bg_word
    then (
      set_job_state i background sh,
      announced job.jid job.pid job.cmdline ∷ continued job.pid ∷ [],
    )
    else (sh, [])

resume_found : (command : List ℕ) → Effect → Option ℕ → Shell → Shell × List Effect
unfolding resume_job
resume_found command missing none sh = (sh, missing ∷ [])
resume_found command missing (some i) sh = resume_job command i sh

-- The branch of `do_bgfg` for a jid.
by_jid : (command : List ℕ) → ℤ → Shell → Shell × List Effect
unfolding resume_found
by_jid command (pos zero) sh = (sh, not_a_number command ∷ [])
by_jid command jid sh = resume_found command (no_job jid) (getjobjid sh.jobs (number_of jid)) sh

-- The branch of `do_bgfg` for a pid.
by_pid : (command : List ℕ) → ℤ → Shell → Shell × List Effect
unfolding resume_found
by_pid command (pos zero) sh = (sh, not_a_number command ∷ [])
by_pid command pid sh = resume_found command (no_process pid) (getjobpid sh.jobs (number_of pid)) sh

-- `do_bgfg`
pub do_bgfg :
    (atoi : List ℕ → ℤ) (command : List ℕ) (arguments : List (List ℕ)) → Shell → Shell × List Effect
unfolding by_jid by_pid
do_bgfg atoi command ([] ∷ []) sh = by_pid command (atoi []) sh
do_bgfg atoi command ((c ∷ buf) ∷ []) sh =
    if c == percent then by_jid command (atoi buf) sh else by_pid command (atoi (c ∷ buf)) sh
do_bgfg atoi command _ sh = (sh, usage command ∷ [])

-- The test of the loop of `waitfg`: does it go on waiting with this job list?
pub still_waits : (pid : ℕ) → List Job → Bool
still_waits pid jobs = pid == fgpid jobs

-- `waitfg`: does it wait at all?
pub waitfg : (pid : ℕ) → List Job → Bool
unfolding still_waits
waitfg pid jobs = elim (getjobpid jobs pid) [
  | none ↦ false
  | some _ ↦ not (pid == 0) && still_waits pid jobs
]

-- How a command ends: the shell exits, it reads through `NULL`, it writes outside of an array, or it
-- goes on.
pub data Outcome : Type 0 where
  quits faults overflows : Outcome
  goes_on : Shell → List Effect → Outcome

abbrev pub go_on : Shell × List Effect → Outcome
go_on (sh, effects) = goes_on sh effects

-- The part of `eval` behind `fork`, in the shell: `none` when there is no child.
pub launch : (bg : Bool) (cmdline : List ℕ) (forked : Option ℕ) → Shell → Outcome
launch bg cmdline none sh = goes_on sh []
launch bg cmdline (some pid) sh =
    let (_, sh') = addjob pid (if bg then background else foreground) cmdline sh in
    goes_on sh' ((if bg then announced (pid2jid sh'.jobs pid) pid cmdline else waits pid) ∷ [])

-- `builtin_cmd`, and the part of `eval` behind it for a command that is not built in.
pub builtin_cmd :
    (atoi : List ℕ → ℤ) (bg : Bool) (argv : List (List ℕ)) (cmdline : List ℕ) (forked : Option ℕ)
    → Shell
    → Outcome
unfolding equal do_bgfg launch
builtin_cmd atoi bg [] cmdline forked sh = faults
builtin_cmd atoi bg (command ∷ arguments) cmdline forked sh =
    if equal command quit_word
    then quits
    else if equal command ampersand_word
    then goes_on sh []
    else if equal command fg_word || equal command bg_word
    then go_on (do_bgfg atoi command arguments sh)
    else if equal command jobs_word
    then goes_on sh (listed sh.jobs ∷ [])
    else launch bg cmdline forked sh

-- The part of `eval` behind `parseline`.
eval_parsed :
    (atoi : List ℕ → ℤ) (parsed : Option (Bool × List (List ℕ))) (cmdline : List ℕ)
    (forked : Option ℕ)
    → Shell
    → Outcome
unfolding builtin_cmd
eval_parsed atoi none cmdline forked sh = overflows
eval_parsed atoi (some (bg, argv)) cmdline forked sh = builtin_cmd atoi bg argv cmdline forked sh

-- `eval`; its own copy of the line has as many places as that of `parseline`.
pub eval : (atoi : List ℕ → ℤ) (cmdline : List ℕ) (forked : Option ℕ) → Shell → Outcome
unfolding eval_parsed
eval atoi cmdline forked sh = eval_parsed atoi (parseline cmdline) cmdline forked sh

-- What `waitpid` says of a child.
pub data Status : Type 0 where
  exited : Status
  signaled stopped_with : (signal : ℕ) → Status

mark_stopped : (pid signal : ℕ) → Option ℕ → Shell → Option (Shell × List Effect)
unfolding set_job_state
mark_stopped pid signal none sh = none
mark_stopped pid signal (some i) sh =
    let sh' = set_job_state i stopped sh in
    some (sh', stopped_by (pid2jid sh'.jobs pid) pid signal ∷ [])

-- One turn of the loop of `sigchld_handler`; `none` is a write through `NULL`.
pub reap : (pid : ℕ) → Status → Shell → Option (Shell × List Effect)
unfolding mark_stopped
reap pid exited sh = some ((deletejob pid sh).1, [])
reap pid (signaled signal) sh =
    some ((deletejob pid sh).1, terminated_by (pid2jid sh.jobs pid) pid signal ∷ [])
reap pid (stopped_with signal) sh = mark_stopped pid signal (getjobpid sh.jobs pid) sh

-- `sigint_handler` and `sigtstp_handler`
pub forward_signal : (signal : ℕ) → List Job → List Effect
forward_signal signal jobs = let pid = fgpid jobs in if pid == 0 then [] else sent pid signal ∷ []
