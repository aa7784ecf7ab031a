-- ===== src/Eos/Sync.antt =====
-- Semaphores: MiniOS/eOS_student/core/sync.c. Interrupts are disabled between a switch of context
-- and the next, so each of the functions below is one atomic step. Code behind a switch, which runs
-- when the task is resumed, is a function of its own. What `malloc` and `free` do to the nodes is
-- not modelled.
pub mod Laws
mod Tests
use snu_projects.Base.{
  ℕ, zero, suc, ◌+◌, ◌-◌, ◌%◌, List, [], ◌∷◌, Option, none, some, ◌==◌, ltb, if◌then◌else◌,
}
use snu_projects.Base.Int.{ℤ, pos, negsuc}
use snu_projects.Eos.Queue.{Queue, Entry, add_tail, add_priority}
use snu_projects.Eos.Kernel.{Kernel, TaskId, word}
use snu_projects.Eos.Kernel.Task.{schedule, sleep, suspend_task, wakeup_sleeping_task}

-- `eos_semaphore_t`
pub record Semaphore : Type 0 where
  pub count : ℕ
  pub wait_queue : Queue
  pub queue_type : ℕ

-- How a step of a call ends: it returns a value, or the context is switched, or `NULL` is read.
pub data Outcome (A : Type 0) : Type 0 where
  returned : ℕ → A → Kernel → Outcome A
  switched : A → Kernel → Outcome A
  faulted : Outcome A

-- `eos_init_semaphore`
unfoldable pub init_semaphore : (initial_count queue_type : ℕ) → Semaphore
init_semaphore initial_count queue_type = record {
  count = initial_count;
  wait_queue = [];
  queue_type = queue_type;
}

-- The node of a task enters the wait queue: at the tail, or by priority.
unfoldable pub enqueue : TaskId → Kernel → Semaphore → Semaphore
unfolding add_priority
enqueue t k sem =
    let node : Entry = record { ptr_data = t; priority = (k.tcb t).priority } in
    record sem {
      wait_queue =
          if sem.queue_type == 0
          then add_tail node sem.wait_queue
          else add_priority node sem.wait_queue;
    }

-- The context has been switched, if `eos_schedule` could.
abbrev after_switch : Semaphore → Option Kernel → Outcome Semaphore
after_switch sem none = faulted
after_switch sem (some k) = switched sem k

wait_for : (tick : ℕ) (saved : Option ℕ) → Option TaskId → Semaphore → Kernel → Outcome Semaphore
wait_for tick saved none sem k = faulted
wait_for tick saved (some t) sem k = after_switch (enqueue t k sem) (sleep saved tick k)

wait_until : (saved : Option ℕ) → Option TaskId → Semaphore → Kernel → Outcome Semaphore
wait_until saved none sem k = faulted
wait_until saved (some t) sem k = after_switch (enqueue t k sem) (schedule saved (suspend_task t k))

-- `eos_acquire_semaphore` on a semaphore that has no instance left.
pub block : (timeout : ℤ) (saved : Option ℕ) → Semaphore → Kernel → Outcome Semaphore
unfolding wait_for wait_until
block (negsuc zero) saved sem k = returned 0 sem k
block (pos (suc n)) saved sem k = wait_for (suc n) saved k.current sem k
block _ saved sem k = wait_until saved k.current sem k

-- `eos_acquire_semaphore`, up to its first switch of context.
unfoldable pub acquire_semaphore :
    (timeout : ℤ) (saved : Option ℕ) → Semaphore → Kernel → Outcome Semaphore
unfolding block
acquire_semaphore timeout saved sem k =
    if ltb 0 sem.count
    then returned 1 (record sem { count = sem.count - 1 }) k
    else block timeout saved sem k

-- `eos_acquire_semaphore` with a positive timeout, behind its call of `eos_sleep`.
pub resume_timed : Semaphore → Kernel → Outcome Semaphore
resume_timed sem k =
    if ltb 0 sem.count
    then returned 1 (record sem { count = sem.count - 1 }) k
    else returned 0 sem k

-- `eos_acquire_semaphore` without a timeout, behind its call of `eos_schedule`: the loop goes on.
pub resume_waiting : (saved : Option ℕ) → Semaphore → Kernel → Outcome Semaphore
unfolding wait_until
resume_waiting saved sem k =
    if ltb 0 sem.count
    then returned 1 (record sem { count = sem.count - 1 }) k
    else wait_until saved k.current sem k

wake_first : (saved : Option ℕ) → Queue → Semaphore → Kernel → Outcome Semaphore
wake_first saved [] sem k = returned 0 sem k
wake_first saved (e ∷ q) sem k =
    after_switch (record sem { wait_queue = q }) (wakeup_sleeping_task saved e.ptr_data k)

-- `eos_release_semaphore`. It has no result: it returns, or it switches to another context.
unfoldable pub release_semaphore : (saved : Option ℕ) → Semaphore → Kernel → Outcome Semaphore
unfolding wake_first
release_semaphore saved sem k =
    wake_first saved sem.wait_queue (record sem { count = (sem.count + 1) % word }) k
