-- ===== src/Shell/Jobs/Laws.antt =====
-- What the functions on the job list of shlab/shlab/tsh.c promise.
use snu_projects.Base.{
  ℕ, zero, suc, ◌<◌, ◌≡◌, ◌≢◌, refl, sym, ap, ◌∙◌, ◌⊎◌, inl, inr, Bool, true, false, List, [], ◌∷◌,
  Option, none, some, arith, ◌==◌, length, length-set, set, get_or-set, Bool-cases, eq_of_==,
  ne_of_==,
}
use mathlib.Core.Bool.{false≢true}
use snu_projects.Shell.Jobs.{found_at, Job, cleared, job_at, position, is_foreground}

-- What the search says: the first entry of which the test holds, or that there is none.
abbrev pub Sought : (Job → Bool) → List Job → Option ℕ → Type 0
Sought test jobs none = (j : ℕ) → j < length jobs → test (job_at jobs j) ≡ false
Sought test jobs (some i) = (i < length jobs) × (test (job_at jobs i) ≡ true)

position_step :
    (test : Job → Bool) (job : Job) (jobs : List Job) (b : Bool) (o : Option ℕ)
    → test job ≡ b
    → Sought test jobs o
    → Sought test (job ∷ jobs) (found_at b o)
unfolding found_at
position_step test job jobs true o e s = (omega arith, e)
position_step test job jobs false none e s = go
  where
    go : (j : ℕ) → j < suc (length jobs) → test (job_at (job ∷ jobs) j) ≡ false
    go zero lt = e
    go (suc j) lt = s j (omega arith)
position_step test job jobs false (some i) e s = (omega (arith, s.0), ground (arith, s.1))

pub position_lem : (test : Job → Bool) (jobs : List Job) → Sought test jobs (position test jobs)
unfolding position
position_lem test [] = λ j lt. absurd (omega arith)
position_lem test (job ∷ jobs) =
    position_step test job jobs (test job) (position test jobs) refl (position_lem test jobs)

-- The search finds an entry when it is the only one of which the test holds.
pub position-only :
    (test : Job → Bool) (jobs : List Job) (i : ℕ)
    → i < length jobs
    → test (job_at jobs i) ≡ true
    → ((j : ℕ) → j < length jobs → test (job_at jobs j) ≡ true → j ≡ i)
    → position test jobs ≡ some i
position-only test jobs i lt on only = go (position test jobs) (position_lem test jobs)
  where
    go : (o : Option ℕ) → Sought test jobs o → o ≡ some i
    go none none_on = absurd (false≢true (sym (none_on i lt) ∙ on))
    go (some j) (lt, on) = ap {B = Option ℕ} some (only j lt on)

-- The search finds nothing when the test holds of no entry.
pub position-nowhere :
    (test : Job → Bool) (jobs : List Job)
    → ((j : ℕ) → j < length jobs → test (job_at jobs j) ≡ false)
    → position test jobs ≡ none
position-nowhere test jobs off = go (position test jobs) (position_lem test jobs)
  where
    go : (o : Option ℕ) → Sought test jobs o → o ≡ none
    go none s = refl
    go (some j) (lt, on) = absurd (false≢true (sym (off j lt) ∙ on))

-- No two entries have the same pid, and at most one job is in the foreground; a free entry is
-- as `clearjob` leaves it.
pub record IsValid (jobs : List Job) : Type 0 where
  pub unique :
      (i j : ℕ)
      → i < length jobs
      → j < length jobs
      → (job_at jobs i).pid ≡ (job_at jobs j).pid
      → (job_at jobs i).pid ≢ 0
      → i ≡ j
  pub alone :
      (i j : ℕ)
      → i < length jobs
      → j < length jobs
      → is_foreground (job_at jobs i).state ≡ true
      → is_foreground (job_at jobs j).state ≡ true
      → i ≡ j
  pub free : (i : ℕ) → i < length jobs → (job_at jobs i).pid ≡ 0 → job_at jobs i ≡ cleared

-- What an entry is after a write: the one that was written, or the one that was there.
pub job_at-set :
    (jobs : List Job) (i : ℕ) (job : Job) (a : ℕ)
    → i < length jobs
    → ((a ≡ i) × (job_at (set jobs i job) a ≡ job))
      ⊎ ((a ≢ i) × (job_at (set jobs i job) a ≡ job_at jobs a))
job_at-set jobs i job a lt = elim (Bool-cases (i == a)) [
  | inl y ↦ inl (sym (eq_of_== i a y), get_or-set jobs i a job cleared lt ∙ rw y refl)
  | inr n ↦ inr ((λ e. ne_of_== i a n (sym e)), get_or-set jobs i a job cleared lt ∙ rw n refl)
]

-- An entry is written whose pid no other entry has, and which is in the foreground only when no
-- other entry is.
module _ (jobs : List Job) (i : ℕ) (job : Job) (v : IsValid jobs) (lt : i < length jobs)
    (new : (j : ℕ) → j < length jobs → j ≢ i → job.pid ≢ 0 → (job_at jobs j).pid ≢ job.pid)
    (other : (j : ℕ)
      → j < length jobs
      → j ≢ i
      → is_foreground job.state ≡ true
      → is_foreground (job_at jobs j).state ≡ false)
    (unused : job.pid ≡ 0 → job ≡ cleared) where
  at :
      (a : ℕ)
      → ((a ≡ i) × (job_at (set jobs i job) a ≡ job))
        ⊎ ((a ≢ i) × (job_at (set jobs i job) a ≡ job_at jobs a))
  at a = job_at-set jobs i job a lt

  inside : (a : ℕ) → a < length (set jobs i job) → a < length jobs
  inside a h = omega (arith, length-set jobs i job)

  pub set-IsValid : IsValid (set jobs i job)
  set-IsValid = record {
    unique = λ a b la lb e nz. elim (at a) [
      | inl (ai, ea) ↦ elim (at b) [
        | inl (bi, eb) ↦ ai ∙ sym bi
        | inr (bi, eb) ↦
            absurd (
              new b (inside b lb) bi (λ z. nz (ap pid ea ∙ z))
                (sym (ap pid eb) ∙ sym e ∙ ap pid ea))
      ]
      | inr (ai, ea) ↦ elim (at b) [
        | inl (bi, eb) ↦
            absurd (
              new a (inside a la) ai (λ z. nz (e ∙ ap pid eb ∙ z))
                (sym (ap pid ea) ∙ e ∙ ap pid eb))
        | inr (bi, eb) ↦
            v.unique a b (inside a la) (inside b lb) (sym (ap pid ea) ∙ e ∙ ap pid eb)
              (λ z. nz (ap pid ea ∙ z))
      ]
    ];
    alone = λ a b la lb fa fb. elim (at a) [
      | inl (ai, ea) ↦ elim (at b) [
        | inl (bi, eb) ↦ ai ∙ sym bi
        | inr (bi, eb) ↦
            absurd (clash (other b (inside b lb) bi (sym (fg ea) ∙ fa)) (sym (fg eb) ∙ fb))
      ]
      | inr (ai, ea) ↦ elim (at b) [
        | inl (bi, eb) ↦
            absurd (clash (other a (inside a la) ai (sym (fg eb) ∙ fb)) (sym (fg ea) ∙ fa))
        | inr (bi, eb) ↦
            v.alone a b (inside a la) (inside b lb) (sym (fg ea) ∙ fa) (sym (fg eb) ∙ fb)
      ]
    ];
    free = λ a la z. elim (at a) [
      | inl (ai, ea) ↦ ea ∙ unused (sym (ap pid ea) ∙ z)
      | inr (ai, ea) ↦ ea ∙ v.free a (inside a la) (sym (ap pid ea) ∙ z)
    ];
  }
    where
      pid : Job → ℕ
      pid j = j.pid

      fg : {x y : Job} → x ≡ y → is_foreground x.state ≡ is_foreground y.state
      fg e = ap (λ (j : Job). is_foreground j.state) e

      clash : {c : Bool} → c ≡ false → c ≡ true → ⊥
      clash e f = false≢true (sym e ∙ f)
