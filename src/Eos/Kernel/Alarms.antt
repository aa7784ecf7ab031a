-- ===== src/Eos/Kernel/Alarms.antt =====
-- Alarms of core/timer.c: setting one, a tick, and the loop over those that have expired.
use snu_projects.Base.{
  ℕ, ◌+◌, ◌-◌, ◌/◌, ◌%◌, ◌<◌, ◌≤◌, ◌≡◌, refl, sym, ap, ◌∙◌, Bool, true, false, ◌||◌, [], ◌∷◌,
  Option, none, some, arith, ◌==◌, if◌then◌else◌, ◌⊎◌, inl, inr, Bool-cases, eq_of_==, ne_of_==,
  ==-self,
}
use mathlib.Core.Option
use mathlib.Core.Bool.{false≢true}
use snu_projects.Eos.Queue.{Queue, Entry, carries, remove}
use snu_projects.Eos.Kernel.{Kernel, Alarm, AlarmId, TaskId, update, word}
use snu_projects.Eos.Kernel.Timer.{set_alarm, dequeue_alarm}
use snu_projects.Eos.Kernel.Tick.{
  sub_word, age_alarms, age_entry, age_queue, aged, pass_tick_on, pass_tick, fire, fire_first,
}
use snu_projects.Eos.Kernel.AlarmQueue.{
  AllFrom, IsSorted, Counts, AlarmsOk, AllPending, removed, Counts-remove, IsSorted-remove,
  IsSorted-add, Counts-update, Counts-add,
}

dequeue-AlarmsOk : (k : Kernel) (a : ℕ) → AlarmsOk k → AlarmsOk (dequeue_alarm a k)
unfolding dequeue_alarm
dequeue-AlarmsOk k a ok = record {
  sorted = IsSorted-remove a k.timer.alarm_queue ok.sorted;
  counts = Counts-remove k.alarm a k.timer.alarm_queue ok.counts;
}

-- `eos_set_alarm` with a timeout below 2 ^ 32 keeps the alarm queue sorted, with each alarm in it
-- once and its timeout told by its node's priority.
pub set_alarm-AlarmsOk :
    (k : Kernel) (a timeout : ℕ) (entry : Option TaskId)
    → AlarmsOk k
    → timeout < word
    → AlarmsOk (set_alarm a timeout entry k)
unfolding set_alarm
set_alarm-AlarmsOk k a timeout none ok w = dequeue-AlarmsOk k a ok
set_alarm-AlarmsOk k a timeout (some t) ok w = elim (Bool-cases (timeout == 0)) [
  | inl z ↦ rw z (dequeue-AlarmsOk k a ok)
  | inr n ↦ rw n (record {
    sorted = IsSorted-add _ _ (IsSorted-remove a k.timer.alarm_queue ok.sorted);
    counts =
        Counts-add (update k.alarm a (record { timeout = timeout / 64; wakes = some t }))
          (record { ptr_data = a; priority = timeout }) (remove a k.timer.alarm_queue)
          (rw (==-self a) refl) w gone
          (Counts-update k.alarm a _ (remove a k.timer.alarm_queue) gone
            (Counts-remove k.alarm a k.timer.alarm_queue ok.counts));
  })
]
  where
    gone : carries a (remove a k.timer.alarm_queue) ≡ false
    gone = removed k.alarm a k.timer.alarm_queue ok.counts

age_timeout :
    (q : Queue) (alarm alarm₀ : AlarmId → Alarm) (a : ℕ)
    → Counts alarm₀ q
    → (age_alarms q alarm a).timeout
      ≡ (if carries a q then sub_word (alarm a).timeout 1 else (alarm a).timeout)
unfolding age_alarms
age_timeout [] alarm alarm₀ a c = refl
age_timeout (e ∷ q) alarm alarm₀ a c = ground (
  arith,
  age_timeout q
      (update alarm e.ptr_data
        (record (alarm e.ptr_data) { timeout = sub_word (alarm e.ptr_data).timeout 1 }))
      alarm₀ a c.3,
)

carries-age : (j : ℕ) (q : Queue) → carries j (age_queue q) ≡ carries j q
unfolding age_queue
carries-age j [] = refl
carries-age j (e ∷ q) = ap (λ b. (e.ptr_data == j) || b) (carries-age j q)

-- A node that counts at least one tick ages without wrapping.
age_entry_lem :
    (e : Entry) (t : ℕ)
    → t ≡ e.priority / 64
    → 0 < t
    → e.priority < word
    → (sub_word t 1 ≡ (age_entry e).priority / 64)
      × ((age_entry e).priority < word)
      × ((age_entry e).priority + 64 ≡ e.priority)
      × (sub_word t 1 ≡ t - 1)
unfolding age_entry
age_entry_lem e t c pos w = omega arith

AllFrom-age :
    (alarm : AlarmId → Alarm) (k : ℕ) (q : Queue)
    → Counts alarm q
    → AllPending alarm q
    → AllFrom (k + 64) q
    → AllFrom k (age_queue q)
unfolding age_queue
AllFrom-age alarm k [] c p f = tt
AllFrom-age alarm k (e ∷ q) c p f = (
  omega (arith, age_entry_lem e (alarm e.ptr_data).timeout c.0 p.0 c.1),
  AllFrom-age alarm k q c.3 p.1 f.1,
)

IsSorted-age :
    (alarm : AlarmId → Alarm) (q : Queue)
    → Counts alarm q
    → AllPending alarm q
    → IsSorted q
    → IsSorted (age_queue q)
unfolding age_queue
IsSorted-age alarm [] c p s = tt
IsSorted-age alarm (e ∷ q) c p s = (
  AllFrom-age alarm (age_entry e).priority q c.3 p.1
      (rw (age_entry_lem e (alarm e.ptr_data).timeout c.0 p.0 c.1).2 s.0),
  IsSorted-age alarm q c.3 p.1 s.1,
)

Counts-age :
    (alarm alarm' : AlarmId → Alarm) (q : Queue)
    → Counts alarm q
    → AllPending alarm q
    → ((a : ℕ) → carries a q ≡ true → (alarm' a).timeout ≡ sub_word (alarm a).timeout 1)
    → Counts alarm' (age_queue q)
unfolding age_queue
Counts-age alarm alarm' [] c p aged = tt
Counts-age alarm alarm' (e ∷ q) c p aged =
    let old = age_entry_lem e (alarm e.ptr_data).timeout c.0 p.0 c.1 in
    (
      aged e.ptr_data (ground arith) ∙ old.0,
      old.1,
      carries-age e.ptr_data q ∙ c.2,
      Counts-age alarm alarm' q c.3 p.1 (λ a h. aged a (ground arith)),
    )

pending_of_carries :
    (alarm : AlarmId → Alarm) (q : Queue) (a : ℕ)
    → AllPending alarm q
    → carries a q ≡ true
    → 0 < (alarm a).timeout
pending_of_carries alarm [] a p h = absurd (false≢true h)
pending_of_carries alarm (e ∷ q) a p h = elim (Bool-cases (e.ptr_data == a)) [
  | inl y ↦ rw (← eq_of_== e.ptr_data a y) p.0
  | inr n ↦ pending_of_carries alarm q a p.1 (ground arith)
]

aged-AlarmsOk :
    (k : Kernel)
    → AlarmsOk k
    → AllPending k.alarm k.timer.alarm_queue
    → AlarmsOk (aged k.timer.alarm_queue k)
unfolding aged
aged-AlarmsOk k ok p = record {
  sorted = IsSorted-age k.alarm k.timer.alarm_queue ok.counts p ok.sorted;
  counts =
      Counts-age k.alarm (age_alarms k.timer.alarm_queue k.alarm) k.timer.alarm_queue ok.counts p
        (λ a h. age_timeout k.timer.alarm_queue k.alarm k.alarm a ok.counts ∙ rw h refl);
}

timeout-of-Counts :
    (alarm : AlarmId → Alarm) (q : Queue) (a : ℕ)
    → Counts alarm q
    → carries a q ≡ true
    → (alarm a).timeout < word
timeout-of-Counts alarm [] a c h = absurd (false≢true h)
timeout-of-Counts alarm (e ∷ q) a c h = elim (Bool-cases (e.ptr_data == a)) [
  | inl y ↦ rw (← eq_of_== e.ptr_data a y) (omega (arith, c.0, c.1))
  | inr n ↦ timeout-of-Counts alarm q a c.3 (ground arith)
]

-- A tick, when the alarm queue is in order and not empty and no queued alarm has expired, brings
-- each queued alarm one tick nearer, touches no other alarm, drops none, counts the tick, and
-- keeps the alarm queue in order.
pub pass_tick_lem :
    (k : Kernel) (e : Entry) (q : Queue)
    → AlarmsOk k
    → AllPending k.alarm k.timer.alarm_queue
    → k.timer.alarm_queue ≡ e ∷ q
    → (k' : Kernel) × (pass_tick k ≡ some k')
      × AlarmsOk k'
      × (k'.timer.tick ≡ (k.timer.tick + 1) % word)
      × ((a : AlarmId) → carries a k'.timer.alarm_queue ≡ carries a k.timer.alarm_queue)
      × ((a : AlarmId)
          → (k'.alarm a).timeout ≡ (
              if carries a k.timer.alarm_queue
              then (k.alarm a).timeout - 1
              else (k.alarm a).timeout))
unfolding pass_tick
pass_tick_lem k e q ok p full = (
  aged k.timer.alarm_queue k,
  ap (λ r. pass_tick_on r k) full ∙ sym (ap (λ r. some (aged r k)) full),
  aged-AlarmsOk k ok p,
  refl,
  (λ a. carries-age a k.timer.alarm_queue),
  (λ a.
      age_timeout k.timer.alarm_queue k.alarm k.alarm a ok.counts
      ∙ exact a (Bool-cases (carries a k.timer.alarm_queue))),
)
  where
    exact :
        (a : ℕ)
        → (carries a k.timer.alarm_queue ≡ true) ⊎ (carries a k.timer.alarm_queue ≡ false)
        → (if carries a k.timer.alarm_queue
            then sub_word (k.alarm a).timeout 1
            else (k.alarm a).timeout)
          ≡ (if carries a k.timer.alarm_queue then (k.alarm a).timeout - 1 else (k.alarm a).timeout)
    exact a (inl h) = rw h (
        omega (
          arith,
          pending_of_carries k.alarm k.timer.alarm_queue a p h,
          timeout-of-Counts k.alarm k.timer.alarm_queue a ok.counts h,
        ))
    exact a (inr h) = rw h refl

pass_tick_some :
    (k : Kernel) (a : AlarmId) (q : Queue) → carries a q ≡ true → pass_tick_on q k ≡ some (aged q k)
unfolding pass_tick_on
pass_tick_some k a [] h = absurd (false≢true h)
pass_tick_some k a (e ∷ q) h = refl

-- An alarm that has expired and is still queued at a tick, with the alarm queue in order, is lost:
-- its timeout wraps to 2 ^ 32 - 1.
pub tick_wraps :
    (k : Kernel) (a : AlarmId)
    → AlarmsOk k
    → carries a k.timer.alarm_queue ≡ true
    → (k.alarm a).timeout ≡ 0
    → (k' : Kernel) × (pass_tick k ≡ some k') × ((k'.alarm a).timeout ≡ word - 1)
unfolding pass_tick
tick_wraps k a ok h z = (
  aged k.timer.alarm_queue k,
  pass_tick_some k a k.timer.alarm_queue h,
  age_timeout k.timer.alarm_queue k.alarm k.alarm a ok.counts ∙ rw (h, z) refl,
)

AllFrom-pending :
    (alarm : AlarmId → Alarm) (k : ℕ) (q : Queue)
    → Counts alarm q
    → AllFrom k q
    → 64 ≤ k
    → AllPending alarm q
AllFrom-pending alarm k [] c f le = tt
AllFrom-pending alarm k (e ∷ q) c f le =
    (omega (arith, c.0, f.0), AllFrom-pending alarm k q c.3 f.1 le)

no_handler_ran :
    (m : Option Kernel) (k' : Kernel)
    → Option.map {B = Bool × Kernel} (λ l. (true, l)) m ≡ some (false, k')
    → ⊥
no_handler_ran none k' e = cc
no_handler_ran (some l) k' e = cc

ended_eq :
    (k k' : Kernel) → ◌≡◌ {A = Option (Bool × Kernel)} (some (false, k)) (some (false, k')) → k' ≡ k
ended_eq k k' e = cc

first-pending :
    (k : Kernel) (saved : Option ℕ) (q : Queue) (k' : Kernel)
    → Counts k.alarm q
    → IsSorted q
    → fire_first saved q k ≡ some (false, k')
    → (k' ≡ k) × AllPending k.alarm q
unfolding fire_first
first-pending k saved [] k' c s ended = (cc, tt)
first-pending k saved (e ∷ q) k' c s ended = elim (Bool-cases ((k.alarm e.ptr_data).timeout == 0)) [
  | inl y ↦ absurd (no_handler_ran _ k' (rw y at ended))
  | inr n ↦ (
    ended_eq k k' (rw n at ended),
    (
      ground arith,
      AllFrom-pending k.alarm e.priority q c.3 s.0 (omega (arith, c.0, ne_of_== _ _ n)),
    ),
  )
]

-- When the loop of `eos_trigger_counter` ends with the alarm queue in order, no queued alarm has
-- expired, although the loop looks at the first node alone, and the round that ends it changes
-- nothing.
pub fire-AllPending :
    (k : Kernel) (saved : Option ℕ) (k' : Kernel)
    → AlarmsOk k
    → fire saved k ≡ some (false, k')
    → (k' ≡ k) × AllPending k.alarm k.timer.alarm_queue
unfolding fire
fire-AllPending k saved k' ok ended =
    first-pending k saved k.timer.alarm_queue k' ok.counts ok.sorted ended
