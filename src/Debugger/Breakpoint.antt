-- ===== src/Debugger/Breakpoint.antt =====
-- Breakpoints and reads of memory: snudebugger/snudbg/src/snudbg.c. The memory of the traced process
-- and `ptrace` are not of this repository: `Mem` is the memory, `peek` and `poke` are what `ptrace`
-- does for `PTRACE_PEEKDATA` and `PTRACE_POKEDATA`, and `none` is a `poke` that fails. Of the
-- registers only `rip` is modelled.
pub mod Laws
mod Tests
use snu_projects.Base.{
  ℕ, zero, suc, ◌+◌, ◌-◌, ◌*◌, ◌/◌, ◌%◌, ◌^◌, List, [], ◌∷◌, ◌++◌, Option, none, some, ◌==◌, leb,
  length, if◌then◌else◌,
}
use mathlib.Core.Option

-- `MAX_BPS`
abbrev pub max_bps : ℕ
max_bps = 4

-- The modulus of `ADDR_T`.
abbrev pub address_space : ℕ
address_space = 2 ^ 64

-- `breakpoint_t`
pub record Breakpoint : Type 0 where
  pub addr : ℕ
  pub orig_value : ℕ

-- The globals `bps` and `num_bps`, and the state of the traced process.
pub record Debugger (Mem : Type 0) : Type 0 where
  pub bps : List Breakpoint
  pub memory : Mem
  pub rip : ℕ

-- A word with another low byte: `val - val % 256 + byte`.
pub with_low_byte : (val byte : ℕ) → ℕ
with_low_byte val byte = val - val % 256 + byte

-- The loop of `handle_break_post` over `bps`: the first breakpoint that has fired, and the others,
-- moved up.
pub take_fired : (rip : ℕ) → List Breakpoint → Option (Breakpoint × List Breakpoint)
take_fired rip [] = none
take_fired rip (bp ∷ bps) =
    if rip == (bp.addr + 1) % address_space
    then some (bp, bps)
    else Option.map (λ r. (r.0, bp ∷ r.1)) (take_fired rip bps)

module _ {Mem : Type 0} (peek : ℕ → Mem → ℕ) (poke : ℕ → ℕ → Mem → Option Mem) where
  -- `handle_read`, up to the dump of the bytes.
  pub handle_read : (addr len : ℕ) → Debugger Mem → List ℕ
  handle_read addr zero d = []
  handle_read addr (suc len) d = (peek addr d.memory % 256) ∷ handle_read (addr + 1) len d

  -- `handle_break`; `none` means that the debugger has ended.
  pub handle_break : ℕ → Debugger Mem → Option (Debugger Mem)
  unfolding with_low_byte
  handle_break addr d =
      if leb max_bps (length d.bps)
      then some d
      else (let val = peek addr d.memory in
          Option.map
            (λ m. record {
              bps = d.bps ++ (record { addr = addr; orig_value = val % 256 } ∷ []);
              memory = m;
              rip = d.rip;
            })
            (poke addr (with_low_byte val 0xcc) d.memory))

  -- The end of `handle_break_post`: the byte of the breakpoint is put back.
  restore : Option (Breakpoint × List Breakpoint) → Debugger Mem → Option (Debugger Mem)
  unfolding with_low_byte
  restore none d = some d
  restore (some (bp, bps)) d =
      Option.map (λ m. record { bps = bps; memory = m; rip = bp.addr })
        (poke bp.addr (with_low_byte (peek bp.addr d.memory) bp.orig_value) d.memory)

  -- `handle_break_post`
  pub handle_break_post : Debugger Mem → Option (Debugger Mem)
  unfolding take_fired restore
  handle_break_post d = restore (take_fired d.rip d.bps) d
