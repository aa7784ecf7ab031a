-- ===== src/Debugger/Breakpoint/Tests.antt =====
-- Runs of a breakpoint, with a memory of bytes as a function.
use snu_projects.Base.{ℕ, ◌+◌, ◌%◌, ◌≡◌, refl, [], some, arith, ◌==◌, if◌then◌else◌}
use snu_projects.Debugger.Breakpoint.{Debugger, handle_break, handle_break_post, address_space}
use snu_projects.Debugger.ByteMemory.{
  Bytes, byte_of, peek_bytes, poke_bytes, everywhere, bytes-IsMemory,
}
use snu_projects.Debugger.Breakpoint.Laws.{handle_break-handle_break_post}

abbrev traced : Debugger Bytes
traced = record { bps = []; memory = λ a. a; rip = 5 }

handle_break-handle_break_post_example :
    (d₁ : Debugger Bytes) × (d₂ : Debugger Bytes) × (handle_break peek_bytes poke_bytes 64 traced
      ≡ some d₁)
    × ((x : ℕ) → byte_of d₁.memory x ≡ (if x == 64 then 0xcc else byte_of traced.memory x))
    × (handle_break_post peek_bytes poke_bytes (record d₁ { rip = (64 + 1) % address_space })
        ≡ some d₂)
    × ((x : ℕ) → byte_of d₂.memory x ≡ byte_of traced.memory x)
    × (d₂.bps ≡ traced.bps)
    × (d₂.rip ≡ 64)
handle_break-handle_break_post_example =
    handle_break-handle_break_post byte_of peek_bytes poke_bytes everywhere bytes-IsMemory 64 traced
      (omega arith) refl tt
