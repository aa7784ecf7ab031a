-- ===== src/Eos/Kernel/AlarmQueue.antt =====
-- The invariant of the alarm queue of core/timer.c, and what it is to add and remove an alarm.
use snu_projects.Base.{
  ℕ, ◌/◌, ◌<◌, ◌≤◌, ◌≡◌, refl, false, ◌||◌, [], ◌∷◌, arith, ◌==◌, inl, inr, Bool-cases, eq_of_==,
  ltb,
}
use snu_projects.Eos.Queue.{Queue, Entry, carries, add_priority, remove}
use snu_projects.Eos.Kernel.{Kernel, Alarm, AlarmId, update, word}

abbrev pub AllFrom : ℕ → Queue → Type 0
AllFrom k [] = Unit {0}
AllFrom k (e ∷ q) = (k ≤ e.priority) × AllFrom k q

-- The nodes stand in ascending order of priority.
abbrev pub IsSorted : Queue → Type 0
IsSorted [] = Unit {0}
IsSorted (e ∷ q) = AllFrom e.priority q × IsSorted q

-- Each node's priority is a word and counts its alarm's timeout in units of 64; no alarm is queued
-- twice.
abbrev pub Counts : (AlarmId → Alarm) → Queue → Type 0
Counts alarm [] = Unit {0}
Counts alarm (e ∷ q) =
    ((alarm e.ptr_data).timeout ≡ e.priority / 64)
    × (e.priority < word)
    × (carries e.ptr_data q ≡ false)
    × Counts alarm q

pub record AlarmsOk (k : Kernel) : Type 0 where
  pub sorted : IsSorted k.timer.alarm_queue
  pub counts : Counts k.alarm k.timer.alarm_queue

-- No queued alarm has expired.
abbrev pub AllPending : (AlarmId → Alarm) → Queue → Type 0
AllPending alarm [] = Unit {0}
AllPending alarm (e ∷ q) = (0 < (alarm e.ptr_data).timeout) × AllPending alarm q

pub carries-remove : (a j : ℕ) (q : Queue) → carries j q ≡ false → carries j (remove a q) ≡ false
unfolding remove
carries-remove a j [] o = refl
carries-remove a j (e ∷ q) o = ground (arith, carries-remove a j q (ground arith))

pub removed :
    (alarm : AlarmId → Alarm) (a : ℕ) (q : Queue) → Counts alarm q → carries a (remove a q) ≡ false
unfolding remove
removed alarm a [] c = refl
removed alarm a (e ∷ q) c = elim (Bool-cases (e.ptr_data == a)) [
  | inl y ↦ rw y (rw (← eq_of_== e.ptr_data a y) c.2)
  | inr n ↦ rw n (ground (arith, removed alarm a q c.3))
]

pub Counts-remove :
    (alarm : AlarmId → Alarm) (a : ℕ) (q : Queue) → Counts alarm q → Counts alarm (remove a q)
unfolding remove
Counts-remove alarm a [] c = tt
Counts-remove alarm a (e ∷ q) c = elim (Bool-cases (e.ptr_data == a)) [
  | inl y ↦ rw y c.3
  | inr n ↦ rw n (c.0, c.1, carries-remove a e.ptr_data q c.2, Counts-remove alarm a q c.3)
]

AllFrom-remove : (k a : ℕ) (q : Queue) → AllFrom k q → AllFrom k (remove a q)
unfolding remove
AllFrom-remove k a [] f = tt
AllFrom-remove k a (e ∷ q) f = elim (Bool-cases (e.ptr_data == a)) [
  | inl y ↦ rw y f.1
  | inr n ↦ rw n (f.0, AllFrom-remove k a q f.1)
]

pub IsSorted-remove : (a : ℕ) (q : Queue) → IsSorted q → IsSorted (remove a q)
unfolding remove
IsSorted-remove a [] s = tt
IsSorted-remove a (e ∷ q) s = elim (Bool-cases (e.ptr_data == a)) [
  | inl y ↦ rw y s.1
  | inr n ↦ rw n (AllFrom-remove e.priority a q s.0, IsSorted-remove a q s.1)
]

pub AllFrom-mono : (j k : ℕ) (q : Queue) → j ≤ k → AllFrom k q → AllFrom j q
AllFrom-mono j k [] le f = tt
AllFrom-mono j k (e ∷ q) le f = (omega arith, AllFrom-mono j k q le f.1)

AllFrom-add :
    (k : ℕ) (e : Entry) (q : Queue) → k ≤ e.priority → AllFrom k q → AllFrom k (add_priority e q)
unfolding add_priority
AllFrom-add k e [] le f = (le, tt)
AllFrom-add k e (x ∷ q) le f = elim (Bool-cases (ltb e.priority x.priority)) [
  | inl y ↦ rw y (le, f)
  | inr n ↦ rw n (f.0, AllFrom-add k e q le f.1)
]

pub IsSorted-add : (e : Entry) (q : Queue) → IsSorted q → IsSorted (add_priority e q)
unfolding add_priority
IsSorted-add e [] s = (tt, tt)
IsSorted-add e (x ∷ q) s = elim (Bool-cases (ltb e.priority x.priority)) [
  | inl y ↦ rw y ((ground arith, AllFrom-mono e.priority x.priority q (ground arith) s.0), s)
  | inr n ↦ rw n (AllFrom-add x.priority e q (ground arith) s.0, IsSorted-add e q s.1)
]

pub carries-add :
    (j : ℕ) (e : Entry) (q : Queue)
    → carries j (add_priority e q) ≡ ((e.ptr_data == j) || carries j q)
unfolding add_priority
carries-add j e [] = refl
carries-add j e (x ∷ q) = ground (arith, carries-add j e q)

pub Counts-update :
    (alarm : AlarmId → Alarm) (a : ℕ) (v : Alarm) (q : Queue)
    → carries a q ≡ false
    → Counts alarm q
    → Counts (update alarm a v) q
Counts-update alarm a v [] o c = tt
Counts-update alarm a v (e ∷ q) o c =
    (ground arith, c.1, c.2, Counts-update alarm a v q (ground arith) c.3)

pub Counts-add :
    (alarm : AlarmId → Alarm) (e : Entry) (q : Queue)
    → (alarm e.ptr_data).timeout ≡ e.priority / 64
    → e.priority < word
    → carries e.ptr_data q ≡ false
    → Counts alarm q
    → Counts alarm (add_priority e q)
unfolding add_priority
Counts-add alarm e [] t w o c = (t, w, o, tt)
Counts-add alarm e (x ∷ q) t w o c = elim (Bool-cases (ltb e.priority x.priority)) [
  | inl y ↦ rw y (t, w, o, c)
  | inr n ↦ rw n (
    c.0,
    c.1,
    ground (arith, carries-add x.ptr_data e q),
    Counts-add alarm e q t w (ground arith) c.3,
  )
]
