-- ===== src/Eos/Interrupt/Tests.antt =====
-- Runs of interrupts: 0 and 5 are pending, and 5 is masked.
use snu_projects.Base.{ℕ, ◌≡◌, refl, subst, some, arith}
use snu_projects.Eos.Interrupt.{
  Registers, irq_max, get_irq, init_icb_table, set_interrupt_handler, common_interrupt_handler,
}
use snu_projects.Eos.Interrupt.Laws.{
  IsHighest, Served, get_irq-IsHighest, set_interrupt_handler-common_interrupt_handler,
}

abbrev timer_pending : Registers
timer_pending = record { pending = 33; mask = 0xfffffffe }

timer_is_first : get_irq timer_pending ≡ some 0
unfolding get_irq
timer_is_first = refl

timer_pending-IsHighest : IsHighest irq_max timer_pending (some 0)
timer_pending-IsHighest =
    subst (IsHighest irq_max timer_pending) timer_is_first (get_irq-IsHighest timer_pending)

set_interrupt_handler-common_interrupt_handler_example : Served {Handler = ℕ} 0 60 timer_pending (
    common_interrupt_handler
      (set_interrupt_handler 5 (some 70) (set_interrupt_handler 0 (some 60) init_icb_table))
      timer_pending)
unfolding init_icb_table
set_interrupt_handler-common_interrupt_handler_example =
    set_interrupt_handler-common_interrupt_handler init_icb_table timer_pending 0 5 60 (some 70)
      (omega arith) (λ e. cc) timer_pending-IsHighest
