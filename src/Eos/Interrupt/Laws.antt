-- ===== src/Eos/Interrupt/Laws.antt =====
-- Which interrupt is served, and by which handler: core/interrupt.c, hal/linux/interrupt.c.
use snu_projects.Base.{
  ℕ, zero, suc, ◌<◌, ◌≡◌, ◌≢◌, ap, ◌∙◌, inl, inr, true, false, List, Option, none, some, arith,
  ◌==◌, refl, sym, Bool, not, ◌&&◌, ◌^◌, bit_and, ltb, lt_of_ltb, le_of_ltb, length, set,
  get_or-set_self, get_or-set_ne, Bool-cases, eq_of_==, ne_of_==,
}
use mathlib.Core.Bool.{false≢true}
use snu_projects.Eos.Interrupt.Bits.{test-cleared}
use snu_projects.Eos.Interrupt.{
  Registers, irq_max, ack_irq, is_raised, highest_below, get_irq, Icb, icb_at,
  set_interrupt_handler, get_interrupt_handler, dispatch_irq, called, common_interrupt_handler,
}

-- What the search below a number may answer.
abbrev pub IsHighest : ℕ → Registers → Option ℕ → Type 0
IsHighest n r none = (j : ℕ) → j < n → is_raised r j ≡ false
IsHighest n r (some i) =
    (i < n) × (is_raised r i ≡ true) × ((j : ℕ) → i < j → j < n → is_raised r j ≡ false)

IsHighest-suc :
    (n : ℕ) (r : Registers) (o : Option ℕ)
    → is_raised r n ≡ false
    → IsHighest n r o
    → IsHighest (suc n) r o
IsHighest-suc n r none off h = λ j lt. elim (Bool-cases (j == n)) [
  | inl e ↦ ap (is_raised r) (eq_of_== j n e) ∙ off
  | inr ne ↦ h j (omega (arith, ne_of_== j n ne))
]
IsHighest-suc n r (some i) off h = (
  omega (arith, h.0),
  h.1,
  λ j lt lt'. elim (Bool-cases (j == n)) [
    | inl e ↦ ap (is_raised r) (eq_of_== j n e) ∙ off
    | inr ne ↦ h.2 j lt (omega (arith, ne_of_== j n ne))
  ],
)

highest_below-IsHighest : (n : ℕ) (r : Registers) → IsHighest n r (highest_below n r)
unfolding highest_below
highest_below-IsHighest zero r = λ j lt. absurd (omega arith)
highest_below-IsHighest (suc n) r = elim (Bool-cases (is_raised r n)) [
  | inl on ↦ rw on (omega arith, on, λ j lt lt'. absurd (omega arith))
  | inr off ↦ rw off (IsHighest-suc n r (highest_below n r) off (highest_below-IsHighest n r))
]

-- `eos_get_irq` returns the highest interrupt that is pending and not masked, or -1 when there is
-- none.
pub get_irq-IsHighest : (r : Registers) → IsHighest irq_max r (get_irq r)
unfolding get_irq
get_irq-IsHighest r = highest_below-IsHighest irq_max r

-- The interrupt that is raised, with none above it raised, is the one that `eos_get_irq` returns.
get_irq_of_highest :
    (r : Registers) (irq : ℕ) → IsHighest irq_max r (some irq) → get_irq r ≡ some irq
get_irq_of_highest r irq (lt, on, above) = go (get_irq r) (get_irq-IsHighest r)
  where
    go : (o : Option ℕ) → IsHighest irq_max r o → o ≡ some irq
    go none off = absurd (false≢true (sym (off irq lt) ∙ on))
    go (some i) (lt', on', above') = elim (Bool-cases (i == irq)) [
      | inl e ↦ ap {B = Option ℕ} some (eq_of_== i irq e)
      | inr ne ↦ elim (Bool-cases (ltb i irq)) [
        | inl less ↦ absurd (false≢true (sym (above' irq (lt_of_ltb i irq less) lt) ∙ on))
        | inr more ↦ absurd (
            false≢true
              (sym (above i (omega (arith, le_of_ltb i irq more, ne_of_== i irq ne)) lt') ∙ on'))
      ]
    ]

-- `_irq_pending & (0x1 << i)`
abbrev pub is_pending : Registers → ℕ → Bool
is_pending r i = not (bit_and r.pending (2 ^ i) == 0)

-- The handler of the interrupt has been called, and the interrupt alone is not pending any more.
pub record Served {Handler : Type 0} (irq : ℕ) (h : Handler) (r : Registers)
    (result : Registers × Option (ℕ × Handler)) : Type 0 where
  pub call : result.1 ≡ some (irq, h)
  pub mask : result.0.mask ≡ r.mask
  pub pending : (j : ℕ) → j < irq_max → is_pending result.0 j ≡ (not (irq == j) && is_pending r j)

ack_irq-Served :
    {Handler : Type 0} (irq : ℕ) (h : Handler) (r : Registers)
    → irq < irq_max
    → Served irq h r (ack_irq irq r, some (irq, h))
unfolding ack_irq
ack_irq-Served irq h r lt = record {
  call = refl;
  mask = refl;
  pending = λ j lt'. test-cleared irq j r.pending lt lt';
}

module _ {Handler : Type 0} where
  served :
      (table : List (Icb Handler)) (r : Registers) (irq : ℕ) (h : Handler)
      → get_irq r ≡ some irq
      → get_interrupt_handler irq table ≡ some h
      → common_interrupt_handler table r ≡ (ack_irq irq r, some (irq, h))
  unfolding common_interrupt_handler dispatch_irq get_interrupt_handler called
  served table r irq h now set =
      ap (λ o. dispatch_irq o table r) now ∙ ap (λ o. (ack_irq irq r, called irq o)) set

  get-set_interrupt_handler :
      (table : List (Icb Handler)) (irq other : ℕ) (h : Handler) (g : Option Handler)
      → irq < length table
      → other ≢ irq
      → get_interrupt_handler irq
          (set_interrupt_handler other g (set_interrupt_handler irq (some h) table))
        ≡ some h
  unfolding get_interrupt_handler set_interrupt_handler
  get-set_interrupt_handler table irq other h g lt ne =
      ap (λ (i : Icb Handler). i.handler)
        (get_or-set_ne once other irq (record (icb_at once other) { handler = g }) none_at ne
          ∙ get_or-set_self table irq (record (icb_at table irq) { handler = some h }) none_at lt)
    where
      once : List (Icb Handler)
      once = set table irq (record (icb_at table irq) { handler = some h })

      none_at : Icb Handler
      none_at = record { irqnum = irq; handler = none }

  -- When an interrupt of the table is pending and not masked, and none above it is, the handler that
  -- was set for it is called, also when the handler of another interrupt was set or removed after
  -- that; then the interrupt is not pending any more, every other interrupt is pending exactly if it
  -- was, and the mask is as it was.
  pub set_interrupt_handler-common_interrupt_handler :
      (table : List (Icb Handler)) (r : Registers) (irq other : ℕ) (h : Handler)
      (g : Option Handler)
      → irq < length table
      → other ≢ irq
      → IsHighest irq_max r (some irq)
      → Served irq h r (
          common_interrupt_handler
            (set_interrupt_handler other g (set_interrupt_handler irq (some h) table))
            r)
  set_interrupt_handler-common_interrupt_handler table r irq other h g lt ne highest =
      rw
        (served (set_interrupt_handler other g (set_interrupt_handler irq (some h) table)) r irq h
          (get_irq_of_highest r irq highest) (get-set_interrupt_handler table irq other h g lt ne))
        (ack_irq-Served irq h r highest.0)
