-- ===== src/Eos/Kernel/Task.antt =====
-- core/task.c. A function that saves a context takes what `_os_save_context` returned: `some sp`
-- when it saves, `none` (`NULL`) when the saved context is resumed.
use snu_projects.Base.{
  ℕ, ◌+◌, ◌*◌, ◌%◌, [], ◌∷◌, ◌||◌, Option, none, some, ◌==◌, ltb, if◌then◌else◌,
}
use snu_projects.Eos.Bitmap.{
  Bitmap, lowest_priority, init_bitmap, get_highest_priority, set_ready, unset_ready,
}
use snu_projects.Eos.Queue.{Queue, add_tail}
use snu_projects.Eos.Kernel.{Kernel, TaskState, ready, running, waiting, TaskId, update, word}
use snu_projects.Eos.Kernel.Timer.{set_alarm}

abbrev pub set_state : TaskId → TaskState → Kernel → Kernel
set_state t s k = record k { tcb = update k.tcb t (record (k.tcb t) { state = s }) }

-- The statements by which a task enters the ready queue of its priority: the node is allocated,
-- the priority's bit is set and the node goes to the tail.
unfoldable pub push_ready : TaskId → ℕ → Kernel → Kernel
push_ready t priority k = record k {
  bitmap = set_ready priority k.bitmap;
  ready_queue =
      update k.ready_queue priority
        (add_tail (record { ptr_data = t; priority = priority }) (k.ready_queue priority));
}

-- `eos_create_task`, with the stack pointer that `_os_create_context` returned.
unfoldable pub create_task : TaskId → (sp priority : ℕ) → Kernel → Kernel
unfolding push_ready
create_task t sp priority k = push_ready t priority (record k {
  tcb = update k.tcb t (record (k.tcb t) { sp = sp; priority = priority; state = ready });
})

-- `eos_schedule`, the part that puts the current task away: its stack pointer is kept, and a running
-- task becomes ready.
unfoldable pub put_away : TaskId → (sp : ℕ) → TaskState → Kernel → Kernel
unfolding push_ready
put_away t sp running k =
    record (push_ready t (k.tcb t).priority
      (record k { tcb = update k.tcb t (record (k.tcb t) { sp = sp; state = ready }) })) {
        current = none;
      }
put_away t sp _ k = record k { tcb = update k.tcb t (record (k.tcb t) { sp = sp }); current = none }

unfoldable pub retire : TaskId → (sp : ℕ) → Kernel → Kernel
unfolding put_away
retire t sp k = put_away t sp (k.tcb t).state k

-- When the queue of a priority has become empty, the priority's bit is cleared.
unfoldable pub clear_ready : Queue → (priority : ℕ) → Bitmap → Bitmap
clear_ready [] priority b = unset_ready priority b
clear_ready (_ ∷ _) priority b = b

-- `eos_schedule`, the part that runs the first node of a queue. An empty queue is a read through
-- `NULL`.
unfoldable pub take_first : ℕ → Queue → Kernel → Option Kernel
take_first priority [] k = none
take_first priority (e ∷ q) k = some (
    set_state e.ptr_data running (record k {
      ready_queue = update k.ready_queue priority q;
      bitmap = clear_ready q priority k.bitmap;
      current = some (e.ptr_data);
    }))

unfoldable pub dispatch : Kernel → Option Kernel
unfolding take_first
dispatch k =
    let priority = get_highest_priority k.bitmap in
    if ltb lowest_priority priority then some k else take_first priority (k.ready_queue priority) k

-- `eos_schedule`. In the result, `current` is the task whose context is restored.
unfoldable pub schedule : (saved : Option ℕ) → Kernel → Option Kernel
unfolding retire dispatch
schedule saved k = elim (k.current) [
  | none ↦ dispatch k
  | some t ↦ elim saved [ none ↦ some k | some sp ↦ dispatch (retire t sp k) ]
]

-- `eos_set_period`
unfoldable pub set_period : TaskId → ℕ → Kernel → Kernel
set_period t period k = record k { tcb = update k.tcb t (record (k.tcb t) { period = period }) }

-- `eos_suspend_task`
unfoldable pub suspend_task : TaskId → Kernel → Kernel
suspend_task t k = set_state t waiting k

-- The alarm of a task, allocated at its first sleep.
unfoldable pub own_alarm : TaskId → Option ℕ → Kernel → ℕ × Kernel
own_alarm t (some a) k = (a, k)
own_alarm t none k = (
  k.next_alarm,
  record k {
    tcb = update k.tcb t (record (k.tcb t) { alarm = some (k.next_alarm) });
    next_alarm = k.next_alarm + 1;
  },
)

-- The alarm of `eos_sleep`: after `tick` ticks, or after the task's period.
unfoldable pub set_sleep : TaskId → (tick : ℕ) → Kernel → Kernel
set_sleep t tick k =
    if ltb 0 tick || ltb 0 (k.tcb t).period
    then (let timeout = if tick == 0 then (k.tcb t).period else tick in
        let priority = (64 * timeout + (k.tcb t).priority) % word in
        let (a, k') = own_alarm t (k.tcb t).alarm k in set_alarm a priority (some t) k')
    else k

-- `eos_sleep`; with no current task it writes through `NULL`.
unfoldable pub sleep_as : Option TaskId → (saved : Option ℕ) → (tick : ℕ) → Kernel → Option Kernel
sleep_as none saved tick k = none
sleep_as (some t) saved tick k = schedule saved (set_sleep t tick (set_state t waiting k))

unfoldable pub sleep : (saved : Option ℕ) → (tick : ℕ) → Kernel → Option Kernel
unfolding sleep_as
sleep saved tick k = sleep_as k.current saved tick k

-- `_os_wakeup_sleeping_task`, up to its call of `eos_schedule`.
unfoldable pub wake : TaskId → Kernel → Kernel
unfolding push_ready
wake t k = push_ready t (k.tcb t).priority (set_state t ready k)

-- `_os_wakeup_sleeping_task`
unfoldable pub wakeup_sleeping_task : (saved : Option ℕ) → TaskId → Kernel → Option Kernel
unfolding wake schedule
wakeup_sleeping_task saved t k = schedule saved (wake t k)

-- `_os_init_task` and `_os_init_scheduler`. The loop of `_os_init_task` stops before the queue of
-- the lowest priority.
unfoldable pub init_task : Kernel → Kernel
init_task k = record k {
  current = none;
  ready_queue = λ i. if ltb i lowest_priority then [] else k.ready_queue i;
}

unfoldable pub init_scheduler : Kernel → Kernel
init_scheduler k = record k { bitmap = init_bitmap }
