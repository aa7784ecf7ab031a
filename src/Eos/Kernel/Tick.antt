-- ===== src/Eos/Kernel/Tick.antt =====
-- The timer interrupt: `eos_trigger_counter` of core/timer.c. A handler ends in `eos_schedule`, so
-- the loop over the expired alarms is cut into rounds: the next round runs when the interrupted task
-- is resumed, which may be after other ticks.
use snu_projects.Base.{
  ℕ, ◌+◌, ◌-◌, ◌%◌, [], ◌∷◌, Bool, true, false, Option, none, some, ◌==◌, if◌then◌else◌,
}
use mathlib.Core.Option
use snu_projects.Eos.Queue.{Queue, Entry}
use snu_projects.Eos.Kernel.{Kernel, Alarm, AlarmId, TaskId, update, word}
use snu_projects.Eos.Kernel.Timer.{set_alarm}
use snu_projects.Eos.Kernel.Task.{wakeup_sleeping_task}

-- `x - d` on an `int32u_t`
abbrev pub sub_word : ℕ → ℕ → ℕ
sub_word x d = (x + word - d) % word

-- The loop that ages the alarms, over the nodes of the queue.
unfoldable pub age_alarms : Queue → (AlarmId → Alarm) → AlarmId → Alarm
age_alarms [] alarm = alarm
age_alarms (e ∷ q) alarm = age_alarms q (
    update alarm e.ptr_data
      (record (alarm e.ptr_data) { timeout = sub_word (alarm e.ptr_data).timeout 1 }))

unfoldable pub age_entry : Entry → Entry
age_entry e = record e { priority = sub_word e.priority 64 }

unfoldable pub age_queue : Queue → Queue
unfolding age_entry
age_queue [] = []
age_queue (e ∷ q) = age_entry e ∷ age_queue q

-- The counter goes up and every alarm of the queue is one tick nearer.
unfoldable pub aged : Queue → Kernel → Kernel
unfolding age_alarms age_queue
aged q k = record k {
  timer = record { tick = (k.timer.tick + 1) % word; alarm_queue = age_queue q };
  alarm = age_alarms q k.alarm;
}

-- One tick passes. The queue is read through `NULL` when it is empty.
unfoldable pub pass_tick_on : Queue → Kernel → Option Kernel
unfolding aged
pass_tick_on [] k = none
pass_tick_on (e ∷ q) k = some (aged (e ∷ q) k)

unfoldable pub pass_tick : Kernel → Option Kernel
unfolding pass_tick_on
pass_tick k = pass_tick_on k.timer.alarm_queue k

-- A call of the handler, which is `_os_wakeup_sleeping_task` or `NULL`.
call_handler : (saved : Option ℕ) → Option TaskId → Kernel → Option Kernel
unfolding wakeup_sleeping_task
call_handler saved none k = none
call_handler saved (some t) k = wakeup_sleeping_task saved t k

-- One round of the loop over expired alarms: `(false, k)` when it ends, `(true, k)` when a handler
-- has run.
unfoldable pub fire_first : (saved : Option ℕ) → Queue → Kernel → Option (Bool × Kernel)
unfolding set_alarm call_handler
fire_first saved [] k = some (false, k)
fire_first saved (e ∷ q) k =
    if (k.alarm e.ptr_data).timeout == 0
    then Option.map (λ k'. (true, k'))
        (call_handler saved (k.alarm e.ptr_data).wakes (set_alarm e.ptr_data 0 none k))
    else some (false, k)

unfoldable pub fire : (saved : Option ℕ) → Kernel → Option (Bool × Kernel)
unfolding fire_first
fire saved k = fire_first saved k.timer.alarm_queue k

first_round : (saved : Option ℕ) → Option Kernel → Option (Bool × Kernel)
unfolding fire
first_round saved none = none
first_round saved (some k) = fire saved k

-- `eos_trigger_counter` up to its first switch of context, and whether its loop goes on.
unfoldable pub trigger_counter : (saved : Option ℕ) → Kernel → Option (Bool × Kernel)
unfolding pass_tick first_round
trigger_counter saved k = first_round saved (pass_tick k)
