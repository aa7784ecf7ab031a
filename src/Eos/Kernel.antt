-- ===== src/Eos/Kernel.antt =====
-- The state of the kernel: core/eos.h, core/eos_internal.h, and the globals of core/task.c and
-- core/timer.c. Tasks and alarms are named by numbers (their addresses); a list of nodes is a
-- `Queue`. The kernel runs on one CPU: a function is the code up to the next switch of context, and
-- `none` is a read through `NULL`.
pub mod Timer
pub mod Task
pub mod Tick
pub mod Valid
pub mod Ready
pub mod Schedule
pub mod Sleep
pub mod AlarmQueue
pub mod Alarms
pub mod Lock
mod Tests
use snu_projects.Base.{
  ℕ, ◌+◌, ◌-◌, ◌*◌, ◌%◌, ◌^◌, List, [], ◌∷◌, Option, none, some, ◌==◌, if◌then◌else◌,
}
use snu_projects.Eos.Bitmap.{Bitmap}
use snu_projects.Eos.Queue.{Queue}

abbrev pub TaskId : Type 0
TaskId = ℕ

abbrev pub AlarmId : Type 0
AlarmId = ℕ

-- 2 ^ 32, the modulus of `int32u_t`.
abbrev pub word : ℕ
word = 2 ^ 32

-- `READY`, `RUNNING`, `WAITING`; a TCB that no call has touched holds 0.
pub data TaskState : Type 0 where
  unset ready running waiting : TaskState

-- `eos_tcb_t`
pub record Tcb : Type 0 where
  pub state : TaskState
  pub priority : ℕ
  pub period : ℕ
  pub sp : ℕ
  pub alarm : Option AlarmId

-- `eos_alarm_t`. The kernel registers one handler, `_os_wakeup_sleeping_task`, so a handler is
-- present or `NULL`. The queue node is the entry of the counter's queue that carries the alarm.
pub record Alarm : Type 0 where
  pub timeout : ℕ
  pub wakes : Option TaskId

-- `eos_counter_t`
pub record Counter : Type 0 where
  pub tick : ℕ
  pub alarm_queue : Queue

-- The globals, the TCBs and the alarms. `next_alarm` is the address that `malloc` gives next.
pub record Kernel : Type 0 where
  pub current : Option TaskId
  pub tcb : TaskId → Tcb
  pub ready_queue : ℕ → Queue
  pub bitmap : Bitmap
  pub timer : Counter
  pub alarm : AlarmId → Alarm
  pub next_alarm : AlarmId

-- An array or a store of objects with one of them changed.
abbrev pub update {ℓ} : {A : Type ℓ} → (ℕ → A) → ℕ → A → ℕ → A
update f i v j = if j == i then v else f j
