-- ===== src/Shell/Command/Laws.antt =====
-- What the commands and the signal handlers of shlab/shlab/tsh.c do to a valid job list.
use snu_projects.Base.{
  ℕ, zero, suc, ◌<◌, ◌≡◌, ◌≢◌, refl, sym, ap, ◌∙◌, ◌⊎◌, inl, inr, Bool, true, false, List, [], ◌∷◌,
  Option, none, some, arith, ◌==◌, ltb, if◌then◌else◌, length, length-set, set, subst, ◌||◌, ◌++◌,
  replicate, Bool-cases, eq_of_==, ne_of_==, ==_of_ne,
}
use mathlib.Core.Bool.{false≢true}
use snu_projects.Base.Int.{ℤ, pos, negsuc}
use snu_projects.Shell.Jobs.{
  Job, JobState, Shell, foreground, background, stopped, job_at, position, deletejob, is_foreground,
  fgpid, getjobpid, getjobjid,
}
use snu_projects.Shell.Jobs.Laws.{IsValid, job_at-set, set-IsValid, Sought, position_lem}
use snu_projects.Shell.Jobs.Update.{
  fgpid-zero, fgpid-some, getjobpid-some, getjobpid-none, addjob-IsValid, deletejob_lem,
}
use snu_projects.Shell.Parse.{parseline, space, max_line}
use snu_projects.Shell.Parse.RoundTrip.{parseline-blank}
use snu_projects.Shell.Command.{
  Effect, Status, exited, signaled, stopped_with, Outcome, quits, faults, overflows, goes_on,
  set_job_state, resume_job, resume_found, by_jid, by_pid, do_bgfg, launch, builtin_cmd,
  eval_parsed, eval, reap, mark_stopped, forward_signal, still_waits, sent, equal, quit_word,
  ampersand_word, fg_word, bg_word, jobs_word, percent,
}

-- A job keeps its pid and gets a state; no other job is in the foreground if that is the state.
set_job_state-IsValid :
    (i : ℕ) (state : JobState) (sh : Shell)
    → IsValid sh.jobs
    → i < length sh.jobs
    → (job_at sh.jobs i).pid ≢ 0
    → ((j : ℕ)
        → j < length sh.jobs
        → j ≢ i
        → is_foreground state ≡ true
        → is_foreground (job_at sh.jobs j).state ≡ false)
    → IsValid (set_job_state i state sh).jobs
unfolding set_job_state
set_job_state-IsValid i state sh v lt nz other =
    set-IsValid sh.jobs i (record (job_at sh.jobs i) { state = state }) v lt
      (λ j lj ne p e. ne (v.unique j i lj lt e (λ z. p (sym e ∙ z)))) other (λ z. absurd (nz z))

resume_job-IsValid :
    (command : List ℕ) (i : ℕ) (sh : Shell)
    → IsValid sh.jobs
    → fgpid sh.jobs ≡ 0
    → i < length sh.jobs
    → (job_at sh.jobs i).pid ≢ 0
    → IsValid (resume_job command i sh).0.jobs
unfolding resume_job
resume_job-IsValid command i sh v fg lt nz = elim (Bool-cases (equal command fg_word)) [
  | inl y ↦ rw y (set_job_state-IsValid i foreground sh v lt nz (λ j lj ne f. free j lj))
  | inr n ↦ rw n (elim (Bool-cases (equal command bg_word)) [
    | inl y ↦ rw y (set_job_state-IsValid i background sh v lt nz (λ j lj ne f. free j lj))
    | inr n ↦ rw n v
  ])
]
  where
    free : (j : ℕ) → j < length sh.jobs → is_foreground (job_at sh.jobs j).state ≡ false
    free j lj = fgpid-zero sh.jobs v fg j lj

-- Where a search by pid or by jid has led: to an entry that is in use.
abbrev InUse : Shell → Option ℕ → Type 0
InUse sh none = Unit {0}
InUse sh (some i) = (i < length sh.jobs) × ((job_at sh.jobs i).pid ≢ 0)

positive : (n : ℕ) → ltb (suc n) 1 ≡ false
positive n = ground arith

by_pid-InUse : (p : ℕ) (sh : Shell) → InUse sh (getjobpid sh.jobs p)
unfolding getjobpid
by_pid-InUse zero sh = tt
by_pid-InUse (suc p) sh = rw (positive p) (
    go (position (λ job. job.pid == suc p) sh.jobs)
      (position_lem (λ job. job.pid == suc p) sh.jobs))
  where
    go : (o : Option ℕ) → Sought (λ job. job.pid == suc p) sh.jobs o → InUse sh o
    go none s = tt
    go (some i) s = (s.0, λ z. omega (arith, eq_of_== _ _ s.1))

by_jid-InUse : (n : ℕ) (sh : Shell) → IsValid sh.jobs → InUse sh (getjobjid sh.jobs n)
unfolding getjobjid
by_jid-InUse zero sh v = tt
by_jid-InUse (suc n) sh v = rw (positive n) (
    go (position (λ job. job.jid == suc n) sh.jobs)
      (position_lem (λ job. job.jid == suc n) sh.jobs))
  where
    go : (o : Option ℕ) → Sought (λ job. job.jid == suc n) sh.jobs o → InUse sh o
    go none s = tt
    go (some i) s =
        (s.0, λ z. omega (arith, eq_of_== _ _ s.1, ap (λ (j : Job). j.jid) (v.free i s.0 z)))

resume_found-IsValid :
    (command : List ℕ) (missing : Effect) (o : Option ℕ) (sh : Shell)
    → IsValid sh.jobs
    → fgpid sh.jobs ≡ 0
    → InUse sh o
    → IsValid (resume_found command missing o sh).0.jobs
unfolding resume_found
resume_found-IsValid command missing none sh v fg u = v
resume_found-IsValid command missing (some i) sh v fg u =
    resume_job-IsValid command i sh v fg u.0 u.1

by_jid-IsValid :
    (command : List ℕ) (n : ℤ) (sh : Shell)
    → IsValid sh.jobs
    → fgpid sh.jobs ≡ 0
    → IsValid (by_jid command n sh).0.jobs
unfolding by_jid
by_jid-IsValid command (pos zero) sh v fg = v
by_jid-IsValid command (pos (suc n)) sh v fg =
    resume_found-IsValid command _ _ sh v fg (by_jid-InUse (suc n) sh v)
by_jid-IsValid command (negsuc n) sh v fg =
    resume_found-IsValid command _ _ sh v fg (by_jid-InUse 0 sh v)

by_pid-IsValid :
    (command : List ℕ) (n : ℤ) (sh : Shell)
    → IsValid sh.jobs
    → fgpid sh.jobs ≡ 0
    → IsValid (by_pid command n sh).0.jobs
unfolding by_pid
by_pid-IsValid command (pos zero) sh v fg = v
by_pid-IsValid command (pos (suc n)) sh v fg =
    resume_found-IsValid command _ _ sh v fg (by_pid-InUse (suc n) sh)
by_pid-IsValid command (negsuc n) sh v fg =
    resume_found-IsValid command _ _ sh v fg (by_pid-InUse 0 sh)

-- Whatever its arguments, `do_bgfg` keeps a job list valid in which no job is in the foreground.
pub do_bgfg-IsValid :
    (atoi : List ℕ → ℤ) (command : List ℕ) (arguments : List (List ℕ)) (sh : Shell)
    → IsValid sh.jobs
    → fgpid sh.jobs ≡ 0
    → IsValid (do_bgfg atoi command arguments sh).0.jobs
unfolding do_bgfg
do_bgfg-IsValid atoi command [] sh v fg = v
do_bgfg-IsValid atoi command ([] ∷ []) sh v fg = by_pid-IsValid command (atoi []) sh v fg
do_bgfg-IsValid atoi command ((c ∷ buf) ∷ []) sh v fg = elim (Bool-cases (c == percent)) [
  | inl y ↦ rw y (by_jid-IsValid command (atoi buf) sh v fg)
  | inr n ↦ rw n (by_pid-IsValid command (atoi (c ∷ buf)) sh v fg)
]
do_bgfg-IsValid atoi command ([] ∷ (x ∷ rest)) sh v fg = v
do_bgfg-IsValid atoi command ((c ∷ buf) ∷ (x ∷ rest)) sh v fg = v

-- What an outcome leaves behind: a valid job list, if the shell goes on.
abbrev pub Leaves : Outcome → Type 0
Leaves quits = Unit {0}
Leaves faults = ⊥
Leaves overflows = ⊥
Leaves (goes_on sh effects) = IsValid sh.jobs

-- What `fork` promises: the pid of a child is positive and not in use.
abbrev pub Fresh : Shell → Option ℕ → Type 0
Fresh sh none = Unit {0}
Fresh sh (some pid) = (0 < pid) × (getjobpid sh.jobs pid ≡ none)

Leaves-if : (b : Bool) (x y : Outcome) → Leaves x → Leaves y → Leaves (if b then x else y)
Leaves-if true x y l m = l
Leaves-if false x y l m = m

launch-Leaves :
    (bg : Bool) (cmdline : List ℕ) (forked : Option ℕ) (sh : Shell)
    → IsValid sh.jobs
    → fgpid sh.jobs ≡ 0
    → Fresh sh forked
    → Leaves (launch bg cmdline forked sh)
unfolding launch
launch-Leaves bg cmdline none sh v fg new = v
launch-Leaves bg cmdline (some pid) sh v fg new =
    let (above, fresh) = new in
    addjob-IsValid pid (if bg then background else foreground) cmdline sh v above fresh (λ f. fg)

-- With a valid job list and no job in the foreground, `eval` of a line from which `parseline` takes
-- one argument at least exits or leaves a valid job list, if `fork` gives a positive pid that is not
-- in the list or fails. Lines without an argument, such as a blank one, `&` alone or a first quote
-- that is not closed, and lines that do not fit in the arrays are left out.
pub eval-IsValid :
    (atoi : List ℕ → ℤ) (cmdline : List ℕ) (forked : Option ℕ) (sh : Shell) (bg : Bool)
    (command : List ℕ) (arguments : List (List ℕ))
    → IsValid sh.jobs
    → fgpid sh.jobs ≡ 0
    → parseline cmdline ≡ some (bg, command ∷ arguments)
    → Fresh sh forked
    → Leaves (eval atoi cmdline forked sh)
unfolding eval eval_parsed builtin_cmd
eval-IsValid atoi cmdline forked sh bg command arguments v fg parsed new = rw parsed (
    Leaves-if (equal command quit_word) _ _ tt (
      Leaves-if (equal command ampersand_word) _ _ v (
        Leaves-if (equal command fg_word || equal command bg_word) _ _
          (do_bgfg-IsValid atoi command arguments sh v fg)
          (Leaves-if (equal command jobs_word) _ _ v
            (launch-Leaves bg cmdline forked sh v fg new)))))

-- A blank line, of spaces and a newline, that fits in the array makes `eval` compare through `NULL`.
pub eval-blank :
    (atoi : List ℕ → ℤ) (n : ℕ) (forked : Option ℕ) (sh : Shell)
    → suc n < max_line
    → eval atoi (replicate n space ++ (10 ∷ [])) forked sh ≡ faults
unfolding eval eval_parsed builtin_cmd
eval-blank atoi n forked sh lt = rw (parseline-blank n lt) refl

-- A child that has ended or stopped is no longer waited for.
fgpid-ne :
    (jobs : List Job) (pid : ℕ)
    → 0 < pid
    → ((i : ℕ)
        → i < length jobs
        → (job_at jobs i).pid ≡ pid
        → is_foreground (job_at jobs i).state ≡ false)
    → fgpid jobs ≢ pid
fgpid-ne jobs pid above off e =
    let (i, lt, same, on) = fgpid-some jobs (omega (arith, e)) in
    false≢true (sym (off i lt (same ∙ e)) ∙ on)

-- What `sigchld_handler` does with a child of the list: the list stays valid, and `waitfg` stops
-- waiting for the child.
abbrev pub Reaped : (pid : ℕ) → Option (Shell × List Effect) → Type 0
Reaped pid none = ⊥
Reaped pid (some (sh, effects)) = IsValid sh.jobs × (still_waits pid sh.jobs ≡ false)

not_waiting :
    (jobs : List Job) (pid : ℕ)
    → 0 < pid
    → ((i : ℕ)
        → i < length jobs
        → (job_at jobs i).pid ≡ pid
        → is_foreground (job_at jobs i).state ≡ false)
    → still_waits pid jobs ≡ false
unfolding still_waits
not_waiting jobs pid above off =
    ==_of_ne pid (fgpid jobs) (λ e. fgpid-ne jobs pid above off (sym e))

deleted-Reaped :
    (pid i : ℕ) (sh : Shell)
    → IsValid sh.jobs
    → 0 < pid
    → getjobpid sh.jobs pid ≡ some i
    → IsValid (deletejob pid sh).1.jobs × (still_waits pid (deletejob pid sh).1.jobs ≡ false)
deleted-Reaped pid i sh v above found = elim (deletejob_lem pid sh v above) [
  | inl (sh', e, d) ↦
      subst (λ r. IsValid r.1.jobs × (still_waits pid r.1.jobs ≡ false)) (sym e)
        (
          d.valid,
          not_waiting sh'.jobs pid above
              (λ j lt same. absurd (getjobpid-none sh'.jobs pid j above d.gone lt same)),
        )
  | inr (e, missing) ↦ absurd (other (sym found ∙ missing))
]
  where
    other : ◌≡◌ {A = Option ℕ} (some i) none → ⊥
    other e = cc

stopped-Reaped :
    (pid i : ℕ) (sh : Shell)
    → IsValid sh.jobs
    → 0 < pid
    → (i < length sh.jobs) × ((job_at sh.jobs i).pid ≡ pid)
    → IsValid (set_job_state i stopped sh).jobs
      × (still_waits pid (set_job_state i stopped sh).jobs ≡ false)
unfolding set_job_state
stopped-Reaped pid i sh v above (lt, same) = (
  set_job_state-IsValid i stopped sh v lt (λ z. omega (arith, z, same))
      (λ j lj ne f. absurd (false≢true f)),
  not_waiting (set sh.jobs i job) pid above (λ j lj e. elim (job_at-set sh.jobs i job j lt) [
    | inl (here, eq) ↦ ap (λ (j : Job). is_foreground j.state) eq
    | inr (ne, eq) ↦ absurd (
        ne (
          v.unique j i (omega (arith, length-set sh.jobs i job)) lt
            (sym (ap (λ (j : Job). j.pid) eq) ∙ e ∙ sym same)
            (λ z. omega (arith, z, ap (λ (j : Job). j.pid) eq, e))))
  ]),
)
  where
    job : Job
    job = record (job_at sh.jobs i) { state = stopped }

-- `sigchld_handler` finds a child that is in a valid list: it keeps the list valid, and `waitfg`
-- stops waiting for the child, whether it has exited, was terminated or was stopped.
pub reap_lem :
    (pid i : ℕ) (status : Status) (sh : Shell)
    → IsValid sh.jobs
    → 0 < pid
    → getjobpid sh.jobs pid ≡ some i
    → Reaped pid (reap pid status sh)
unfolding reap mark_stopped
reap_lem pid i exited sh v above found = deleted-Reaped pid i sh v above found
reap_lem pid i (signaled signal) sh v above found = deleted-Reaped pid i sh v above found
reap_lem pid i (stopped_with signal) sh v above found =
    rw found (stopped-Reaped pid i sh v above (getjobpid-some sh.jobs pid i above found))

-- On a valid job list `sigint_handler` and `sigtstp_handler` send the signal to the job in the
-- foreground alone, and send nothing when no job is there.
pub forward_signal_lem :
    (signal : ℕ) (jobs : List Job)
    → IsValid jobs
    → ((i : ℕ) × (i < length jobs)
        × (is_foreground (job_at jobs i).state ≡ true)
        × (forward_signal signal jobs ≡ sent (job_at jobs i).pid signal ∷ []))
      ⊎ (((i : ℕ) → i < length jobs → is_foreground (job_at jobs i).state ≡ false)
          × (forward_signal signal jobs ≡ []))
unfolding forward_signal
forward_signal_lem signal jobs v = elim (Bool-cases (fgpid jobs == 0)) [
  | inl z ↦ inr (fgpid-zero jobs v (eq_of_== _ 0 z), rw z refl)
  | inr n ↦
      (let (i, lt, same, on) = fgpid-some jobs (omega (arith, ne_of_== _ 0 n)) in
        inl (i, lt, on, rw n (rw same refl)))
]
