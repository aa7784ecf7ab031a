-- ===== src/Eos/Kernel/Schedule.antt =====
-- `eos_schedule` and the functions of core/task.c that call it, under the scheduler's invariant.
use snu_projects.Base.{
  ℕ, ◌<◌, ◌≤◌, ◌≡◌, ◌≢◌, refl, sym, ap, subst, ◌∙◌, true, [], ◌∷◌, Option, none, some, arith, ◌==◌,
  if◌then◌else◌, inl, inr, Bool-cases, ==-self, ==_of_ne, ltb, lt_of_ltb, le_of_ltb,
}
use snu_projects.Eos.Queue.{Queue, Entry, add_tail}
use snu_projects.Eos.Kernel.{Kernel, Tcb, TaskState, ready, running, waiting, TaskId, update}
use snu_projects.Eos.Kernel.Task.{
  push_ready, put_away, retire, dispatch, schedule, wake, wakeup_sleeping_task,
}
use snu_projects.Eos.Kernel.Ready.{Agree, Agree-keep, Agree-push, nonempty, nonempty-tail}
use snu_projects.Eos.Kernel.Valid.{IsValid, Dispatched, keeps_update, dispatch_lem, wake-IsValid}

-- The entry of a task's node.
abbrev pub node_of : Kernel → TaskId → Entry
node_of k t = record { ptr_data = t; priority = (k.tcb t).priority }

-- The TCBs when a task has been put away: its stack pointer is kept, and it has the state `s`.
abbrev pub tcb_away : Kernel → TaskId → (sp : ℕ) → TaskState → TaskId → Tcb
tcb_away k t sp s = update k.tcb t (record (k.tcb t) { sp = sp; state = s })

-- The ready queues when a task has joined the ready tasks of its priority.
abbrev pub queues_with : Kernel → TaskId → ℕ → Queue
queues_with k t =
    update k.ready_queue (k.tcb t).priority
      (add_tail (node_of k t) (k.ready_queue (k.tcb t).priority))

module _ (k : Kernel) (t : TaskId) (sp : ℕ) (v : IsValid k) (cur : k.current ≡ some t) where
  pub here : ((k.tcb t).state ≢ ready) × ((k.tcb t).priority < 64)
  here = rw cur at (v.runs)

  put_away-Agree :
      (s : TaskState)
      → Agree (put_away t sp s k).tcb (put_away t sp s k).ready_queue (put_away t sp s k).bitmap
  unfolding put_away push_ready
  put_away-Agree running =
      Agree-push t (k.tcb t).priority v.agree here.1 here.0 (rw (==-self t) refl)
        (rw (==-self t) refl) (keeps_update k.tcb t _ here.0)
  put_away-Agree _ = Agree-keep v.agree (keeps_update k.tcb t _ here.0)

  retire-current : (retire t sp k).current ≡ none
  unfolding retire
  retire-current = go (k.tcb t).state
    where
      go : (s : TaskState) → (put_away t sp s k).current ≡ none
      go running = refl
      go _ = refl

  retire-IsValid : IsValid (retire t sp k)
  unfolding retire
  retire-IsValid = record { agree = put_away-Agree (k.tcb t).state; runs = rw retire-current tt }

  retire-ready_queue : (k.tcb t).state ≡ running → (retire t sp k).ready_queue ≡ queues_with k t
  unfolding retire put_away push_ready
  retire-ready_queue r = rw r refl

  retire-tcb : (k.tcb t).state ≡ running → (retire t sp k).tcb ≡ tcb_away k t sp ready
  unfolding retire put_away push_ready
  retire-tcb r = rw r refl

  retire-tcb_waiting : (k.tcb t).state ≡ waiting → (retire t sp k).tcb ≡ tcb_away k t sp waiting
  unfolding retire put_away
  retire-tcb_waiting w = rw (w, sym w) refl

  retire-priority : (j : TaskId) → ((retire t sp k).tcb j).priority ≡ (k.tcb j).priority
  unfolding retire
  retire-priority j = go (k.tcb t).state
    where
      go : (s : TaskState) → ((put_away t sp s k).tcb j).priority ≡ (k.tcb j).priority
      go running = ground arith
      go _ = ground arith

  schedule_eq : schedule (some sp) k ≡ dispatch (retire t sp k)
  unfolding schedule
  schedule_eq = rw cur refl

  -- `eos_schedule` called by the running task of a valid scheduler never fails and keeps the
  -- scheduler valid. The task's stack pointer is kept, it becomes ready and goes to the tail of the
  -- queue of its priority; then the first ready task of the least priority runs, and its node alone
  -- leaves the queues. Nothing else changes in the queues, nor in the TCBs but that it is running.
  pub schedule_running :
      (k.tcb t).state ≡ running
      → (k' : Kernel) × (schedule (some sp) k ≡ some k')
        × Dispatched (tcb_away k t sp ready) (queues_with k t) k'
  schedule_running r =
      let (k', ran, d) =
        dispatch_lem (retire t sp k) retire-IsValid retire-current (k.tcb t).priority here.1
          (rw (retire-ready_queue r, ==-self (k.tcb t).priority) (nonempty-tail _ _)) in
      (k', schedule_eq ∙ ran, rw (retire-tcb r, retire-ready_queue r) at d)

  retire-waiting : (k.tcb t).state ≡ waiting → (retire t sp k).ready_queue ≡ k.ready_queue
  unfolding retire put_away
  retire-waiting w = rw w refl

  -- `eos_schedule` called on a valid scheduler by the current task, which has begun to wait, while
  -- some task is ready, never fails and keeps the scheduler valid. The waiting task's stack pointer is
  -- kept and it enters no queue; the first ready task of the least priority runs, and its node alone
  -- leaves the queues. Nothing else changes in the queues, nor in the TCBs but that it is running.
  pub schedule_waiting :
      (p : ℕ)
      → (k.tcb t).state ≡ waiting
      → p < 64
      → nonempty (k.ready_queue p) ≡ true
      → (k' : Kernel) × (schedule (some sp) k ≡ some k')
        × Dispatched (tcb_away k t sp waiting) k.ready_queue k'
  schedule_waiting p w hp full =
      let (k', ran, d) =
        dispatch_lem (retire t sp k) retire-IsValid retire-current p hp
          (rw (retire-waiting w) full) in
      (k', schedule_eq ∙ ran, rw (retire-tcb_waiting w, retire-waiting w) at d)

head-cons : (x y : Entry) (xs ys : Queue) → ◌≡◌ {A = Queue} (x ∷ xs) (y ∷ ys) → x ≡ y
head-cons x y xs ys e = cc

-- Where no queue of a smaller priority has a node, the first node of this one was dispatched.
Dispatched-top :
    (tcb : TaskId → Tcb) (queues : ℕ → Queue) (k' : Kernel) (d : Dispatched tcb queues k') (h : ℕ)
    (e : Entry) (q : Queue)
    → h < 64
    → queues h ≡ e ∷ q
    → ((p : ℕ) → p < h → queues p ≡ [])
    → d.node ≡ e
Dispatched-top tcb queues k' d h e q hh full smaller = elim (Bool-cases (ltb level h)) [
  | inl lt ↦ absurd (impossible (smaller level (lt_of_ltb level h lt)))
  | inr ge ↦ head-cons _ _ _ _ (sym d.first ∙ ap queues (same (le_of_ltb level h ge)) ∙ full)
]
  where
    level : ℕ
    level = (tcb d.node.ptr_data).priority

    impossible : queues level ≡ [] → ⊥
    impossible e = ground (arith, d.first)

    same : h ≤ level → level ≡ h
    same ge = omega (arith, d.least h hh (ap nonempty full))

-- The scheduler is valid and task `t` has the CPU.
pub record Runs (k : Kernel) (t : TaskId) : Type 0 where
  pub valid : IsValid k
  pub current : k.current ≡ some t
  pub state : (k.tcb t).state ≡ running

Dispatched-Runs :
    {tcb : TaskId → Tcb} {queues : ℕ → Queue} {k' : Kernel} {e : Entry}
    (d : Dispatched tcb queues k')
    → d.node ≡ e
    → Runs k' e.ptr_data
Dispatched-Runs {k'} d top = record {
  valid = d.valid;
  current = d.current ∙ ap {B = Option TaskId} (λ (n : Entry). some (n.ptr_data)) top;
  state = subst (λ n. (k'.tcb n.ptr_data).state ≡ running) top d.state;
}

-- Round robin: on a valid scheduler, when a running task gives up the CPU and a task of the same
-- priority is ready, the first of these runs next, if no ready task has a smaller priority.
pub schedule-round_robin :
    (k : Kernel) (t : TaskId) (sp : ℕ) (e : Entry) (q : Queue)
    → IsValid k
    → k.current ≡ some t
    → (k.tcb t).state ≡ running
    → k.ready_queue (k.tcb t).priority ≡ e ∷ q
    → ((p : ℕ) → p < (k.tcb t).priority → k.ready_queue p ≡ [])
    → (k' : Kernel) × (schedule (some sp) k ≡ some k') × Runs k' e.ptr_data
schedule-round_robin k t sp e q v cur r full smaller =
    let (k', ran, d) = schedule_running k t sp v cur r in
    let top : d.node ≡ e =
      Dispatched-top (tcb_away k t sp ready) (queues_with k t) k' d (k.tcb t).priority e
        (add_tail (node_of k t) q) (here k t sp v cur).1
        (rw (==-self (k.tcb t).priority, full) refl)
        (λ p lt. rw (==_of_ne p (k.tcb t).priority (omega arith)) (smaller p lt)) in
    (k', ran, Dispatched-Runs d top)

wake-current : (k : Kernel) (t : TaskId) → (wake t k).current ≡ k.current
unfolding wake push_ready
wake-current k t = refl

wake-tcb : (k : Kernel) (t j : TaskId) → j ≢ t → (wake t k).tcb j ≡ k.tcb j
unfolding wake push_ready
wake-tcb k t j ne = rw (==_of_ne j t ne) refl

-- Preemption: on a valid scheduler, a waiting task that is woken takes the CPU from a running task
-- of greater priority, if every queue of its own and of smaller priorities is empty.
pub wakeup_preempts :
    (k : Kernel) (c t : TaskId) (sp : ℕ)
    → IsValid k
    → k.current ≡ some c
    → (k.tcb c).state ≡ running
    → (k.tcb t).state ≡ waiting
    → (k.tcb t).priority < (k.tcb c).priority
    → ((p : ℕ) → p ≤ (k.tcb t).priority → k.ready_queue p ≡ [])
    → (k' : Kernel) × (wakeup_sleeping_task (some sp) t k ≡ some k') × Runs k' t
unfolding wakeup_sleeping_task
wakeup_preempts k c t sp v cur rc wt lt empty =
    let (k', ran, d) = schedule_running w c sp valid cur' run in
    let top : d.node ≡ node_of k t =
      Dispatched-top (tcb_away w c sp ready) (queues_with w c) k' d (k.tcb t).priority (node_of k t)
        [] below
        (rw
          (
            queues (k.tcb t).priority (omega arith),
            ==-self (k.tcb t).priority,
            empty (k.tcb t).priority (omega arith),
          )
          refl)
        (λ p le.
          rw (queues p (omega arith), ==_of_ne p (k.tcb t).priority (omega arith))
            (empty p (omega arith))) in
    (k', ran, Dispatched-Runs d top)
  where
    w : Kernel
    w = wake t k

    high : (k.tcb c).priority < 64
    high = (here k c sp v cur).1

    below : (k.tcb t).priority < 64
    below = omega (arith, high)

    other : c ≢ t
    other e = cc

    valid : IsValid w
    valid = wake-IsValid k t v (λ e. cc) below (λ e. other (cc))

    cur' : w.current ≡ some c
    cur' = wake-current k t ∙ cur

    run : (w.tcb c).state ≡ running
    run = rw (wake-tcb k t c other) rc

    queues :
        (p : ℕ)
        → p < (k.tcb c).priority
        → queues_with w c p ≡ (
            if p == (k.tcb t).priority
            then add_tail (node_of k t) (k.ready_queue (k.tcb t).priority)
            else k.ready_queue p)
    queues p lt = rw (wake-tcb k t c other, ==_of_ne p (k.tcb c).priority (omega arith)) refl
