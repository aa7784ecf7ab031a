-- ===== src/Eos/Kernel/Sleep.antt =====
-- `eos_sleep` of core/task.c, under the scheduler's invariant.
use snu_projects.Base.{
  ℕ, ◌<◌, ◌≡◌, ◌≢◌, ◌||◌, refl, ap, ◌∙◌, true, Option, none, some, arith, ◌==◌, inl, inr,
  Bool-cases, ==-self, ltb,
}
use snu_projects.Eos.Kernel.{Kernel, ready, waiting, TaskId}
use snu_projects.Eos.Kernel.Task.{set_state, schedule, set_sleep, own_alarm, sleep_as, sleep}
use snu_projects.Eos.Kernel.Ready.{Agree-keep, nonempty}
use snu_projects.Eos.Kernel.Valid.{IsCurrent, IsValid, Dispatched, keeps_update}
use snu_projects.Eos.Kernel.Schedule.{tcb_away, here, schedule_waiting}
use snu_projects.Eos.Kernel.Timer.{set_alarm}

set_state_waiting-IsValid :
    (k : Kernel) (t : TaskId) → IsValid k → k.current ≡ some t → IsValid (set_state t waiting k)
set_state_waiting-IsValid k t v cur = record {
  agree = Agree-keep v.agree (keeps_update k.tcb t _ (here k t 0 v cur).0);
  runs = rw (cur, ==-self t) ((λ e. cc), (here k t 0 v cur).1);
}

-- Two kernels that the scheduler cannot tell apart.
record Alike (k k' : Kernel) : Type 0 where
  current : k'.current ≡ k.current
  queues : k'.ready_queue ≡ k.ready_queue
  bitmap : k'.bitmap ≡ k.bitmap
  states :
      (j : TaskId)
      → ((k'.tcb j).state ≡ (k.tcb j).state) × ((k'.tcb j).priority ≡ (k.tcb j).priority)

Alike-IsValid : {k k' : Kernel} → Alike k k' → IsValid k → IsValid k'
Alike-IsValid {k} {k'} a v = record {
  agree =
      rw (a.queues, a.bitmap) (Agree-keep v.agree (λ j s. ((a.states j).0 ∙ s, (a.states j).1)));
  runs = rw a.current (current (k.current) v.runs);
}
  where
    current : (c : Option TaskId) → IsCurrent k.tcb c → IsCurrent k'.tcb c
    current none i = tt
    current (some t) i = (rw (a.states t).0 i.0, rw (a.states t).1 i.1)

set_alarm-Alike :
    (a timeout : ℕ) (e : Option TaskId) (k : Kernel) → Alike k (set_alarm a timeout e k)
unfolding set_alarm
set_alarm-Alike a timeout none k = record {
  current = refl;
  queues = refl;
  bitmap = refl;
  states = λ j. (refl, refl);
}
set_alarm-Alike a timeout (some t) k = elim (Bool-cases (timeout == 0)) [
  | inl z ↦
      rw z (record { current = refl; queues = refl; bitmap = refl; states = λ j. (refl, refl) })
  | inr n ↦
      rw n (record { current = refl; queues = refl; bitmap = refl; states = λ j. (refl, refl) })
]

own_alarm-Alike : (t : TaskId) (o : Option ℕ) (k : Kernel) → Alike k (own_alarm t o k).1
unfolding own_alarm
own_alarm-Alike t (some a) k = record {
  current = refl;
  queues = refl;
  bitmap = refl;
  states = λ j. (refl, refl);
}
own_alarm-Alike t none k = record {
  current = refl;
  queues = refl;
  bitmap = refl;
  states = λ j. (ground arith, ground arith);
}

Alike-trans : {k l m : Kernel} → Alike k l → Alike l m → Alike k m
Alike-trans a b = record {
  current = b.current ∙ a.current;
  queues = b.queues ∙ a.queues;
  bitmap = b.bitmap ∙ a.bitmap;
  states = λ j. ((b.states j).0 ∙ (a.states j).0, (b.states j).1 ∙ (a.states j).1);
}

set_sleep-Alike : (t : TaskId) (tick : ℕ) (k : Kernel) → Alike k (set_sleep t tick k)
unfolding set_sleep
set_sleep-Alike t tick k = elim (Bool-cases (ltb 0 tick || ltb 0 (k.tcb t).period)) [
  | inl y ↦ rw y (Alike-trans (own_alarm-Alike t (k.tcb t).alarm k) (set_alarm-Alike _ _ _ _))
  | inr n ↦
      rw n (record { current = refl; queues = refl; bitmap = refl; states = λ j. (refl, refl) })
]

sleep_eq :
    (k : Kernel) (t : TaskId) (sp tick : ℕ)
    → k.current ≡ some t
    → sleep (some sp) tick k ≡ schedule (some sp) (set_sleep t tick (set_state t waiting k))
unfolding sleep
sleep_eq k t sp tick cur = ap (λ c. sleep_as c (some sp) tick k) cur

-- `eos_sleep` of the current task of a valid scheduler succeeds when another task is ready: the
-- scheduler stays valid, the sleeper waits, and the task that gets the CPU has the least priority
-- of the ready tasks.
pub sleep_lem :
    (k : Kernel) (t : TaskId) (sp tick p : ℕ)
    → IsValid k
    → k.current ≡ some t
    → p < 64
    → nonempty (k.ready_queue p) ≡ true
    → (k' : Kernel) × (sleep (some sp) tick k ≡ some k')
      × Dispatched
          (tcb_away (set_sleep t tick (set_state t waiting k)) t sp waiting)
          k.ready_queue
          k'
      × ((k'.tcb t).state ≡ waiting)
sleep_lem k t sp tick p v cur hp full =
    let (k', ran, d) =
      schedule_waiting k₁ t sp (Alike-IsValid a₁ v₀) (a₁.current ∙ cur) p asleep hp
        (rw a₁.queues full) in
    let other : t ≢ d.node.ptr_data =
      λ e. awake (ap (λ j. (tcb_away k₁ t sp waiting j).state) e ∙ d.was_ready) in
    (
      k',
      sleep_eq k t sp tick cur ∙ ran,
      rw a₁.queues at d,
      rw (d.others t other) (rw (==-self t) refl),
    )
  where
    k₀ : Kernel
    k₀ = set_state t waiting k

    v₀ : IsValid k₀
    v₀ = set_state_waiting-IsValid k t v cur

    k₁ : Kernel
    k₁ = set_sleep t tick k₀

    a₁ : Alike k₀ k₁
    a₁ = set_sleep-Alike t tick k₀

    asleep : (k₁.tcb t).state ≡ waiting
    asleep = (a₁.states t).0 ∙ rw (==-self t) refl

    awake : (tcb_away k₁ t sp waiting t).state ≢ ready
    awake e = ground arith
