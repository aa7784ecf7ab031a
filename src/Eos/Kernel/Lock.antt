-- ===== src/Eos/Kernel/Lock.antt =====
-- The scheduler lock of core/scheduler.c. Interrupts are disabled around each change of the lock.
use snu_projects.Base.{ℕ, Option}
use mathlib.Core.Option
use snu_projects.Eos.Kernel.{Kernel}
use snu_projects.Eos.Kernel.Task.{schedule}

-- `LOCKED` and `UNLOCKED`
abbrev pub locked : ℕ
locked = 0

abbrev pub unlocked : ℕ
unlocked = 1

-- `_os_scheduler_lock` beside the kernel.
pub record Guarded : Type 0 where
  pub lock : ℕ
  pub kernel : Kernel

-- `_os_lock_scheduler`: the old value of the lock.
pub lock_scheduler : Guarded → ℕ × Guarded
lock_scheduler g = (g.lock, record g { lock = locked })

-- `_os_restore_scheduler`
pub restore_scheduler : (scheduler_state : ℕ) (saved : Option ℕ) → Guarded → Option Guarded
unfolding schedule
restore_scheduler scheduler_state saved g =
    Option.map (λ k. record { lock = scheduler_state; kernel = k }) (schedule saved g.kernel)
