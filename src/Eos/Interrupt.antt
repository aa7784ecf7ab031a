-- ===== src/Eos/Interrupt.antt =====
-- Interrupts: MiniOS/eOS_student/core/interrupt.c and hal/linux/interrupt.c, with the registers of
-- hal/linux/emulator/intr.c. A register is a number below 2 ^ 32. Handlers and their arguments are
-- of any type; a dispatch says which handler is called. The flag that `eos_restore_interrupt` sets,
-- in assembly, is not modelled.
pub mod Bits
pub mod Laws
mod Tests
use snu_projects.Base.{
  ℕ, zero, suc, ◌+◌, ◌-◌, ◌^◌, bit_and, bit_or, Bool, not, List, [], ◌∷◌, Option, none, some, ◌==◌,
  if◌then◌else◌, get_or, set,
}

-- `IRQ_MAX`
abbrev pub irq_max : ℕ
irq_max = 32

-- `_irq_pending` and `_irq_mask`
pub record Registers : Type 0 where
  pub pending : ℕ
  pub mask : ℕ

-- `~x` on a register.
abbrev pub complement : ℕ → ℕ
complement x = (2 ^ 32 - 1) - x

-- `eos_ack_irq`
pub ack_irq : ℕ → Registers → Registers
ack_irq irq r = record r { pending = bit_and r.pending (complement (2 ^ irq)) }

-- `_irq_pending & ~_irq_mask & (0x1 << i)`
pub is_raised : Registers → ℕ → Bool
is_raised r i = not (bit_and (bit_and r.pending (complement r.mask)) (2 ^ i) == 0)

-- The loop of `eos_get_irq`, over the interrupts below a number.
highest_below : ℕ → Registers → Option ℕ
unfolding is_raised
highest_below zero r = none
highest_below (suc i) r = let rest = highest_below i r in if is_raised r i then some i else rest

-- `eos_get_irq`; -1 is `none`.
pub get_irq : Registers → Option ℕ
unfolding highest_below
get_irq r = highest_below irq_max r

-- `eos_disable_irq_line`
pub disable_irq_line : ℕ → Registers → Registers
disable_irq_line irq r = record r { mask = bit_or r.mask (2 ^ irq) }

-- `eos_enable_irq_line`
pub enable_irq_line : ℕ → Registers → Registers
enable_irq_line irq r = record r { mask = bit_and r.mask (complement (2 ^ irq)) }

-- `_os_icb_t`; the argument of a handler comes with it.
pub record Icb (Handler : Type 0) : Type 0 where
  pub irqnum : ℕ
  pub handler : Option Handler

module _ {Handler : Type 0} where
  -- The loop of `_os_init_icb_table`, from an interrupt on.
  icbs_from : (irq count : ℕ) → List (Icb Handler)
  icbs_from irq zero = []
  icbs_from irq (suc count) = record { irqnum = irq; handler = none } ∷ icbs_from (irq + 1) count

  -- `_os_init_icb_table`
  pub init_icb_table : List (Icb Handler)
  unfolding icbs_from
  init_icb_table = icbs_from 0 irq_max

  -- `&_os_icb_table[irq]`; outside of the table the entry has no handler.
  abbrev pub icb_at : List (Icb Handler) → ℕ → Icb Handler
  icb_at table irq = get_or table irq (record { irqnum = irq; handler = none })

  -- `eos_set_interrupt_handler`
  pub set_interrupt_handler : ℕ → Option Handler → List (Icb Handler) → List (Icb Handler)
  set_interrupt_handler irq handler table =
      set table irq (record (icb_at table irq) { handler = handler })

  -- `eos_get_interrupt_handler`
  pub get_interrupt_handler : ℕ → List (Icb Handler) → Option Handler
  get_interrupt_handler irq table = (icb_at table irq).handler

  called : ℕ → Option Handler → Option (ℕ × Handler)
  called irq none = none
  called irq (some h) = some (irq, h)

  dispatch_irq : Option ℕ → List (Icb Handler) → Registers → Registers × Option (ℕ × Handler)
  unfolding ack_irq called
  dispatch_irq none table r = (r, none)
  dispatch_irq (some irq) table r = (ack_irq irq r, called irq (icb_at table irq).handler)

  -- `_os_common_interrupt_handler`: the registers, and the call of a handler.
  pub common_interrupt_handler : List (Icb Handler) → Registers → Registers × Option (ℕ × Handler)
  unfolding get_irq dispatch_irq
  common_interrupt_handler table r = dispatch_irq (get_irq r) table r
