-- ===== src/Shell/Jobs/Update.antt =====
-- `addjob` and `deletejob` of shlab/shlab/tsh.c on a valid job list.
use snu_projects.Base.{
  ℕ, zero, suc, ◌<◌, ◌≤◌, ◌≡◌, ◌≢◌, refl, sym, ap, ◌∙◌, ◌⊎◌, inl, inr, true, false, List, [], ◌∷◌,
  Option, none, some, arith, ◌==◌, ltb, lt_of_ltb, le_of_ltb, length, length-set, subst, set,
  get_or-set_self, get_or-set_ne, Bool-cases, eq_of_==, ne_of_==, ==-self, ==_of_ne,
}
use mathlib.Core.Bool.{false≢true}
use snu_projects.Shell.Jobs.{
  Job, JobState, Shell, cleared, job_at, position, maxjid, max_from, initjobs, addjob, deletejob,
  is_foreground, fgpid, getjobpid, fill, clear, pid_at, add_at, delete_at,
}
use snu_projects.Shell.Jobs.Laws.{
  Sought, position_lem, position-only, position-nowhere, IsValid, job_at-set, set-IsValid,
}

-- Where `fgpid` returns 0, no job is in the foreground.
pub fgpid-zero :
    (jobs : List Job)
    → IsValid jobs
    → fgpid jobs ≡ 0
    → (i : ℕ) → i < length jobs
    → is_foreground (job_at jobs i).state ≡ false
unfolding fgpid
fgpid-zero jobs v z = go (position (λ job. is_foreground job.state) jobs) (position_lem _ jobs) z
  where
    go :
        (o : Option ℕ)
        → Sought (λ job. is_foreground job.state) jobs o
        → pid_at jobs o ≡ 0
        → (i : ℕ) → i < length jobs
        → is_foreground (job_at jobs i).state ≡ false
    go none s z = s
    go (some j) s z = λ i lt.
        absurd (false≢true (sym (ap (λ (j : Job). is_foreground j.state) (v.free j s.0 z)) ∙ s.1))

-- `fgpid` returns the pid of the job in the foreground.
pub fgpid-foreground :
    (jobs : List Job) (i : ℕ)
    → IsValid jobs
    → i < length jobs
    → is_foreground (job_at jobs i).state ≡ true
    → fgpid jobs ≡ (job_at jobs i).pid
unfolding fgpid
fgpid-foreground jobs i v lt on = ap (pid_at jobs) (
    position-only (λ job. is_foreground job.state) jobs i lt on
      (λ j lj oj. v.alone j i lj lt oj on))

-- A pid that `fgpid` returns is the pid of a job in the foreground.
pub fgpid-some :
    (jobs : List Job)
    → 0 < fgpid jobs
    → (i : ℕ) × (i < length jobs)
      × ((job_at jobs i).pid ≡ fgpid jobs)
      × (is_foreground (job_at jobs i).state ≡ true)
unfolding fgpid
fgpid-some jobs pos =
    go (position (λ job. is_foreground job.state) jobs)
      (position_lem (λ job. is_foreground job.state) jobs) pos
  where
    go :
        (o : Option ℕ)
        → Sought (λ job. is_foreground job.state) jobs o
        → 0 < pid_at jobs o
        → (i : ℕ) × (i < length jobs)
          × ((job_at jobs i).pid ≡ pid_at jobs o)
          × (is_foreground (job_at jobs i).state ≡ true)
    go none s pos = absurd (omega arith)
    go (some i) s pos = (i, s.0, refl, s.1)

getjobpid_eq :
    (jobs : List Job) (p : ℕ) → 0 < p → getjobpid jobs p ≡ position (λ job. job.pid == p) jobs
unfolding getjobpid
getjobpid_eq jobs p pos = ground arith

pub getjobpid-only :
    (jobs : List Job) (i p : ℕ)
    → IsValid jobs
    → i < length jobs
    → 0 < p
    → (job_at jobs i).pid ≡ p
    → getjobpid jobs p ≡ some i
getjobpid-only jobs i p v lt pos e =
    getjobpid_eq jobs p pos
    ∙ position-only (λ job. job.pid == p) jobs i lt (rw (e, ==-self p) refl)
        (λ j lj oj.
          v.unique j i lj lt (eq_of_== _ _ oj ∙ sym e) (λ z. omega (arith, eq_of_== _ _ oj)))

pub getjobpid-none :
    (jobs : List Job) (p j : ℕ)
    → 0 < p
    → getjobpid jobs p ≡ none
    → j < length jobs
    → (job_at jobs j).pid ≢ p
getjobpid-none jobs p j pos e lt =
    go (position (λ job. job.pid == p) jobs) (position_lem (λ job. job.pid == p) jobs)
      (sym (getjobpid_eq jobs p pos) ∙ e)
  where
    go : (o : Option ℕ) → Sought (λ job. job.pid == p) jobs o → o ≡ none → (job_at jobs j).pid ≢ p
    go none s e = ne_of_== _ p (s j lt)
    go (some i) s e = cc

pub getjobpid-some :
    (jobs : List Job) (p i : ℕ)
    → 0 < p
    → getjobpid jobs p ≡ some i
    → (i < length jobs) × ((job_at jobs i).pid ≡ p)
getjobpid-some jobs p i pos e =
    go (position (λ job. job.pid == p) jobs) (position_lem (λ job. job.pid == p) jobs)
      (sym (getjobpid_eq jobs p pos) ∙ e)
  where
    go :
        (o : Option ℕ)
        → Sought (λ job. job.pid == p) jobs o
        → o ≡ some i
        → (i < length jobs) × ((job_at jobs i).pid ≡ p)
    go none s e = absurd cc
    go (some k) s e = let same : k ≡ i = cc in (rw (← same) s.0, rw (← same) (eq_of_== _ p s.1))

addjob_eq :
    (pid : ℕ) (state : JobState) (cmdline : List ℕ) (sh : Shell)
    → 0 < pid
    → addjob pid state cmdline sh
      ≡ add_at (position (λ job. job.pid == 0) sh.jobs) pid state cmdline sh
unfolding addjob
addjob_eq pid state cmdline sh pos = ground arith

-- What `addjob` has made of the shell when it has found a free entry.
pub record Added (pid : ℕ) (state : JobState) (cmdline : List ℕ) (sh sh' : Shell) : Type 0 where
  pub valid : IsValid sh'.jobs
  pub entry : ℕ
  pub found : getjobpid sh'.jobs pid ≡ some entry
  pub job :
      job_at sh'.jobs entry
      ≡ record { pid = pid; jid = sh.nextjid; state = state; cmdline = cmdline }
  pub was_free : (job_at sh.jobs entry).pid ≡ 0
  pub others : (j : ℕ) → j ≢ entry → job_at sh'.jobs j ≡ job_at sh.jobs j

-- On a valid list, `addjob` with a new pid, and with no job in the foreground if the new one is to
-- be there, writes the job to a free entry, where `getjobpid` finds it, and keeps the list valid;
-- where every entry is taken, it returns 0 and changes nothing.
pub addjob_lem :
    (pid : ℕ) (state : JobState) (cmdline : List ℕ) (sh : Shell)
    → IsValid sh.jobs
    → 0 < pid
    → getjobpid sh.jobs pid ≡ none
    → (is_foreground state ≡ true → fgpid sh.jobs ≡ 0)
    → ((sh' : Shell) × (addjob pid state cmdline sh ≡ (1, sh')) × Added pid state cmdline sh sh')
      ⊎ ((addjob pid state cmdline sh ≡ (0, sh))
          × ((j : ℕ) → j < length sh.jobs → (job_at sh.jobs j).pid ≢ 0))
unfolding add_at fill
addjob_lem pid state cmdline sh v pos new fg =
    go (position (λ job. job.pid == 0) sh.jobs) (position_lem (λ job. job.pid == 0) sh.jobs)
      (addjob_eq pid state cmdline sh pos)
  where
    job : Job
    job = record { pid = pid; jid = sh.nextjid; state = state; cmdline = cmdline }

    go :
        (o : Option ℕ)
        → Sought (λ job. job.pid == 0) sh.jobs o
        → addjob pid state cmdline sh ≡ add_at o pid state cmdline sh
        → ((sh' : Shell) × (addjob pid state cmdline sh ≡ (1, sh'))
            × Added pid state cmdline sh sh')
          ⊎ ((addjob pid state cmdline sh ≡ (0, sh))
              × ((j : ℕ) → j < length sh.jobs → (job_at sh.jobs j).pid ≢ 0))
    go none s eq = inr (eq, λ j lt. ne_of_== _ 0 (s j lt))
    go (some i) (lt, on) eq = inl (
      fill i pid state cmdline sh,
      eq,
      record {
        valid = valid;
        entry = i;
        found =
            getjobpid-only (set sh.jobs i job) i pid valid (omega (arith, length-set sh.jobs i job))
              pos (ap (λ (j : Job). j.pid) (here));
        job = here;
        was_free = eq_of_== _ 0 on;
        others = λ j ne. get_or-set_ne sh.jobs i j job cleared (λ e. ne (sym e));
      },
    )
      where
        here : job_at (set sh.jobs i job) i ≡ job
        here = get_or-set_self sh.jobs i job cleared lt

        valid : IsValid (set sh.jobs i job)
        valid =
            set-IsValid sh.jobs i job v lt (λ j lj ne nz. getjobpid-none sh.jobs pid j pos new lj)
              (λ j lj ne f. fgpid-zero sh.jobs v (fg f) j lj) (λ z. absurd (omega (arith, z, pos)))

-- `addjob` keeps the list valid in either case.
pub addjob-IsValid :
    (pid : ℕ) (state : JobState) (cmdline : List ℕ) (sh : Shell)
    → IsValid sh.jobs
    → 0 < pid
    → getjobpid sh.jobs pid ≡ none
    → (is_foreground state ≡ true → fgpid sh.jobs ≡ 0)
    → IsValid (addjob pid state cmdline sh).1.jobs
addjob-IsValid pid state cmdline sh v pos new fg =
    elim (addjob_lem pid state cmdline sh v pos new fg) [
      | inl (sh', e, added) ↦ subst (λ r. IsValid r.1.jobs) (sym e) added.valid
      | inr (e, full) ↦ subst (λ r. IsValid r.1.jobs) (sym e) v
    ]

job_at-init : (jobs : List Job) (i : ℕ) → job_at (initjobs jobs) i ≡ cleared
unfolding initjobs
job_at-init [] i = refl
job_at-init (job ∷ jobs) zero = refl
job_at-init (job ∷ jobs) (suc i) = job_at-init jobs i

-- `initjobs` makes a valid list.
pub initjobs-IsValid : (jobs : List Job) → IsValid (initjobs jobs)
initjobs-IsValid jobs = record {
  unique = λ i j li lj e nz. absurd (nz (ap (λ (j : Job). j.pid) (job_at-init jobs i)));
  alone = λ i j li lj f g.
      absurd (false≢true (sym (ap (λ (j : Job). is_foreground j.state) (job_at-init jobs i)) ∙ f));
  free = λ i li z. job_at-init jobs i;
}

deletejob_eq :
    (pid : ℕ) (sh : Shell) → 0 < pid → deletejob pid sh ≡ delete_at (getjobpid sh.jobs pid) sh
unfolding deletejob getjobpid
deletejob_eq pid sh pos = ground arith

max_from-le :
    (m : ℕ) (jobs : List Job)
    → (m ≤ max_from m jobs) × ((i : ℕ) → i < length jobs → (job_at jobs i).jid ≤ max_from m jobs)
unfolding max_from
max_from-le m [] = (omega arith, λ i lt. absurd (omega arith))
max_from-le m (job ∷ jobs) = elim (Bool-cases (ltb m job.jid)) [
  | inl y ↦ rw y (
    omega (arith, (max_from-le job.jid jobs).0, lt_of_ltb m job.jid y),
    step job.jid (omega arith) (max_from-le job.jid jobs),
  )
  | inr n ↦
      rw n
        (omega (arith, (max_from-le m jobs).0), step m (le_of_ltb m job.jid n) (max_from-le m jobs))
]
  where
    step :
        (m' : ℕ)
        → job.jid ≤ m'
        → (m' ≤ max_from m' jobs)
          × ((i : ℕ) → i < length jobs → (job_at jobs i).jid ≤ max_from m' jobs)
        → (i : ℕ) → i < suc (length jobs)
        → (job_at (job ∷ jobs) i).jid ≤ max_from m' jobs
    step m' le h zero lt = omega (arith, h.0, le)
    step m' le h (suc i) lt = h.1 i (omega arith)

-- `maxjid` is at least every jid of the list.
pub maxjid-le : (jobs : List Job) (i : ℕ) → i < length jobs → (job_at jobs i).jid ≤ maxjid jobs
unfolding maxjid
maxjid-le jobs i lt = (max_from-le 0 jobs).1 i lt

-- What `deletejob` has made of the shell when it has found the job.
pub record Deleted (pid : ℕ) (sh sh' : Shell) : Type 0 where
  pub valid : IsValid sh'.jobs
  pub gone : getjobpid sh'.jobs pid ≡ none
  pub entry : ℕ
  pub was_there : (job_at sh.jobs entry).pid ≡ pid
  pub cleared_entry : job_at sh'.jobs entry ≡ cleared
  pub others : (j : ℕ) → j ≢ entry → job_at sh'.jobs j ≡ job_at sh.jobs j
  pub fresh : (j : ℕ) → j < length sh'.jobs → (job_at sh'.jobs j).jid < sh'.nextjid

-- `deletejob` on a valid list clears the entry of the pid and leaves the others, so that the pid is
-- not found any more, and the next jid is greater than every jid in use; where the pid is not in
-- the list, it returns 0 and changes nothing.
pub deletejob_lem :
    (pid : ℕ) (sh : Shell)
    → IsValid sh.jobs
    → 0 < pid
    → ((sh' : Shell) × (deletejob pid sh ≡ (1, sh')) × Deleted pid sh sh')
      ⊎ ((deletejob pid sh ≡ (0, sh)) × (getjobpid sh.jobs pid ≡ none))
unfolding delete_at clear
deletejob_lem pid sh v pos = go (getjobpid sh.jobs pid) refl
  where
    Result : Type 0
    Result =
        ((sh' : Shell) × (deletejob pid sh ≡ (1, sh')) × Deleted pid sh sh')
        ⊎ ((deletejob pid sh ≡ (0, sh)) × (getjobpid sh.jobs pid ≡ none))

    at_entry :
        (i : ℕ)
        → getjobpid sh.jobs pid ≡ some i
        → (i < length sh.jobs) × ((job_at sh.jobs i).pid ≡ pid)
        → Result
    at_entry i e (lt, there) = inl (
      clear i sh,
      deletejob_eq pid sh pos ∙ ap (λ o. delete_at o sh) e,
      record {
        valid =
            set-IsValid sh.jobs i cleared v lt (λ j lj ne nz. absurd (nz refl))
              (λ j lj ne f. absurd (false≢true f)) (λ z. refl);
        gone =
            getjobpid_eq jobs' pid pos
            ∙ position-nowhere (λ job. job.pid == pid) jobs' (λ j lj. off j lj);
        entry = i;
        was_there = there;
        cleared_entry = get_or-set_self sh.jobs i cleared cleared lt;
        others = λ j ne. get_or-set_ne sh.jobs i j cleared cleared (λ e. ne (sym e));
        fresh = λ j lj. omega (arith, maxjid-le jobs' j lj);
      },
    )
      where
        jobs' : List Job
        jobs' = set sh.jobs i cleared

        off : (j : ℕ) → j < length jobs' → ((job_at jobs' j).pid == pid) ≡ false
        off j lj = elim (job_at-set sh.jobs i cleared j lt) [
          | inl (same, e) ↦ rw e (==_of_ne 0 pid (omega (arith, pos)))
          | inr (ne, e) ↦ rw e (
              ==_of_ne _ pid (λ q. ne (
                v.unique j i (omega (arith, length-set sh.jobs i cleared)) lt (q ∙ sym there)
                  (λ z. omega (arith, q)))))
        ]

    go : (o : Option ℕ) → getjobpid sh.jobs pid ≡ o → Result
    go none e = inr (deletejob_eq pid sh pos ∙ ap (λ o. delete_at o sh) e, e)
    go (some i) e = at_entry i e (getjobpid-some sh.jobs pid i pos e)
