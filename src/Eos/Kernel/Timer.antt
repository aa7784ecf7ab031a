-- ===== src/Eos/Kernel/Timer.antt =====
-- The counter and its alarms: `eos_init_counter` and `eos_set_alarm` of core/timer.c.
use snu_projects.Base.{ℕ, ◌/◌, [], Option, none, some, ◌==◌, if◌then◌else◌}
use snu_projects.Eos.Queue.{add_priority, remove}
use snu_projects.Eos.Kernel.{Kernel, Counter, AlarmId, TaskId, update}

-- `eos_init_counter`
unfoldable pub init_counter : ℕ → Counter
init_counter init_value = record { tick = init_value; alarm_queue = [] }

-- `_os_init_timer`, up to the registration of the interrupt handler.
unfoldable pub init_timer : Kernel → Kernel
unfolding init_counter
init_timer k = record k { timer = init_counter 0 }

-- `_os_remove_node(&(counter->alarm_queue), &(alarm->alarm_queue_node))`
unfoldable pub dequeue_alarm : AlarmId → Kernel → Kernel
unfolding remove
dequeue_alarm a k = record k {
  timer = record (k.timer) { alarm_queue = remove a k.timer.alarm_queue };
}

-- The fields of the alarm and its place in the queue. A timeout counts ticks in units of 64 and
-- carries the priority of the task below.
unfoldable pub enqueue_alarm : AlarmId → ℕ → TaskId → Kernel → Kernel
unfolding add_priority
enqueue_alarm a timeout task k = record k {
  timer = record (k.timer) {
    alarm_queue = add_priority (record { ptr_data = a; priority = timeout }) k.timer.alarm_queue;
  };
  alarm = update k.alarm a (record { timeout = timeout / 64; wakes = some task });
}

arm : AlarmId → ℕ → Option TaskId → Kernel → Kernel
arm a timeout none k = k
arm a timeout (some task) k = if timeout == 0 then k else enqueue_alarm a timeout task k

-- `eos_set_alarm` on the system timer: entry and argument are the task to wake, or `NULL`.
unfoldable pub set_alarm : AlarmId → ℕ → Option TaskId → Kernel → Kernel
unfolding dequeue_alarm enqueue_alarm arm
set_alarm a timeout entry k = arm a timeout entry (dequeue_alarm a k)
