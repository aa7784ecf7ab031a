-- ===== src/Eos/Kernel/Tests.antt =====
-- Runs of the scheduler: an idle task of priority 63 has the CPU, and others sleep.
use snu_projects.Base.{◌≡◌, refl, [], none, some, arith, ◌==◌, ==_of_ne, if◌then◌else◌}
use snu_projects.Eos.Bitmap.{init_bitmap}
use snu_projects.Eos.Kernel.{Kernel, Tcb, ready, running, waiting}
use snu_projects.Eos.Kernel.Task.{create_task, dispatch, schedule, wakeup_sleeping_task}
use snu_projects.Eos.Kernel.Ready.{Agree-init}
use snu_projects.Eos.Kernel.Valid.{IsValid, Dispatched, create_task-IsValid, dispatch-fault}
use snu_projects.Eos.Kernel.Schedule.{
  Runs, tcb_away, queues_with, schedule_running, schedule_waiting, schedule-round_robin,
  wakeup_preempts,
}
use snu_projects.Eos.Kernel.Timer.{set_alarm}
use snu_projects.Eos.Kernel.AlarmQueue.{AlarmsOk}
use snu_projects.Eos.Kernel.Alarms.{set_alarm-AlarmsOk}

abbrev idle_tcb : Tcb
idle_tcb = record { state = running; priority = 63; period = 0; sp = 0; alarm = none }

abbrev sleeper : Tcb
sleeper = record { state = waiting; priority = 10; period = 4; sp = 0; alarm = none }

abbrev idling : Kernel
idling = record {
  current = some 9;
  tcb = λ j. if j == 9 then idle_tcb else sleeper;
  ready_queue = λ p. [];
  bitmap = init_bitmap;
  timer = record { tick = 0; alarm_queue = [] };
  alarm = λ a. record { timeout = 0; wakes = none };
  next_alarm = 0;
}

idling-IsValid : IsValid idling
idling-IsValid = record { agree = Agree-init idling.tcb; runs = ((λ e. cc), omega arith) }

-- Task 2 of priority 63 beside the idle task.
abbrev crowded : Kernel
crowded = create_task 2 100 63 idling

crowded-IsValid : IsValid crowded
crowded-IsValid =
    create_task-IsValid idling 2 100 63 idling-IsValid (λ e. cc) (omega arith) (λ e. cc)

-- The same with an idle task that waits, and with no current task.
abbrev stuck : Kernel
stuck = record idling { tcb = λ j. if j == 9 then record idle_tcb { state = waiting } else sleeper }

stuck-IsValid : IsValid stuck
stuck-IsValid = record { agree = Agree-init stuck.tcb; runs = ((λ e. cc), omega arith) }

abbrev relieved : Kernel
relieved = create_task 2 100 63 stuck

relieved-IsValid : IsValid relieved
relieved-IsValid =
    create_task-IsValid stuck 2 100 63 stuck-IsValid (λ e. cc) (omega arith) (λ e. cc)

abbrev asleep : Kernel
asleep = record idling { current = none }

asleep-IsValid : IsValid asleep
asleep-IsValid = record { agree = Agree-init asleep.tcb; runs = tt }

dispatch-fault_example : dispatch asleep ≡ none
dispatch-fault_example = dispatch-fault asleep asleep-IsValid refl (λ p hp. refl)

wakeup_preempts_example :
    (k' : Kernel) × (wakeup_sleeping_task (some 500) 3 idling ≡ some k') × Runs k' 3
wakeup_preempts_example =
    wakeup_preempts idling 9 3 500 idling-IsValid refl refl refl (omega arith) (λ p le. refl)

schedule-round_robin_example : (k' : Kernel) × (schedule (some 500) crowded ≡ some k') × Runs k' 2
unfolding create_task
schedule-round_robin_example =
    schedule-round_robin crowded 9 500 (record { ptr_data = 2; priority = 63 }) [] crowded-IsValid
      refl refl refl (λ p lt. rw (==_of_ne p 63 (omega arith)) refl)

schedule_running_example :
    (k' : Kernel) × (schedule (some 500) crowded ≡ some k')
    × Dispatched (tcb_away crowded 9 500 ready) (queues_with crowded 9) k'
unfolding create_task
schedule_running_example = schedule_running crowded 9 500 crowded-IsValid refl refl

schedule_waiting_example :
    (k' : Kernel) × (schedule (some 500) relieved ≡ some k')
    × Dispatched (tcb_away relieved 9 500 waiting) relieved.ready_queue k'
unfolding create_task
schedule_waiting_example =
    schedule_waiting relieved 9 500 relieved-IsValid refl 63 refl (omega arith) refl

-- Alarm 0 wakes task 3 after two ticks, alarm 1 task 4 after five.
abbrev alarmed : Kernel
alarmed = set_alarm 1 330 (some 4) (set_alarm 0 138 (some 3) idling)

idling-AlarmsOk : AlarmsOk idling
idling-AlarmsOk = record { sorted = tt; counts = tt }

alarmed-AlarmsOk : AlarmsOk alarmed
alarmed-AlarmsOk =
    set_alarm-AlarmsOk (set_alarm 0 138 (some 3) idling) 1 330 (some 4)
      (set_alarm-AlarmsOk idling 0 138 (some 3) idling-AlarmsOk (omega arith)) (omega arith)

set_alarm-AlarmsOk_example : AlarmsOk (set_alarm 0 138 (some 3) idling)
set_alarm-AlarmsOk_example = set_alarm-AlarmsOk idling 0 138 (some 3) idling-AlarmsOk (omega arith)

-- Alarm 0 has expired and its node is still queued.
abbrev expired : Kernel
expired = set_alarm 0 10 (some 3) idling

expired-AlarmsOk : AlarmsOk expired
expired-AlarmsOk = set_alarm-AlarmsOk idling 0 10 (some 3) idling-AlarmsOk (omega arith)
