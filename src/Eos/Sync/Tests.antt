-- ===== src/Eos/Sync/Tests.antt =====
-- Runs of a semaphore: task 9 has the CPU, and task 2 is ready beside it.
use snu_projects.Base.{[], Option, none, some}
use snu_projects.Eos.Bitmap.{init_bitmap}
use snu_projects.Eos.Kernel.{Kernel, Tcb, running}
use snu_projects.Eos.Kernel.Task.{create_task}

abbrev waiter : Tcb
waiter = record { state = running; priority = 5; period = 0; sp = 0; alarm = none }

abbrev machine : Kernel
machine = create_task 2 100 20 (record {
  current = some 9;
  tcb = λ j. waiter;
  ready_queue = λ p. [];
  bitmap = init_bitmap;
  timer = record { tick = 0; alarm_queue = [] };
  alarm = λ a. record { timeout = 0; wakes = none };
  next_alarm = 0;
})

-- Where the machine goes when task 9 sleeps.
abbrev or_machine : Option Kernel → Kernel
or_machine none = machine
or_machine (some k) = k
