-- ===== src/Debugger/Write.antt =====
-- Writes to memory: `handle_write` of snudebugger/snudbg/src/snudbg.c. `peek` and `poke` are what
-- `ptrace` does, as in `Debugger.Breakpoint`; a buffer is a function from indices to bytes, of which
-- `room` are the caller's.
pub mod Laws
mod Tests
use snu_projects.Base.{
  ℕ, zero, suc, ◌+◌, ◌-◌, ◌*◌, ◌/◌, ◌%◌, Option, none, some, ltb, leb, ◌&&◌, if◌then◌else◌,
}
use snu_projects.Debugger.Breakpoint.{address_space}

-- The second loop of `handle_write`: the number of the `n` bytes from an index on, the first one
-- lowest, which for 8 bytes is the bit pattern of a `long`.
pub word_at : (ℕ → ℕ) → (n index : ℕ) → ℕ
word_at buf zero index = 0
word_at buf (suc n) index = buf index + 256 * word_at buf n (index + 1)

chain {ℓ} : {A : Type ℓ} → Option A → (A → Option A) → Option A
chain none f = none
chain (some a) f = f a

-- The length of `num`
abbrev pub max_words : ℕ
max_words = 256

-- The number of words that are written, and of bytes that `buf` has to hold for them.
abbrev pub words_of : (len : ℕ) → ℕ
words_of len = len / 8 + 1

abbrev pub whole : (len : ℕ) → ℕ
whole len = words_of len * 8

module _ {Mem : Type 0} (peek : ℕ → Mem → ℕ) (poke : ℕ → ℕ → Mem → Option Mem) where
  -- The first loop: behind the `len` bytes to be written stand those of the memory.
  abbrev pub padded : (addr : ℕ) → (ℕ → ℕ) → (len : ℕ) → Mem → ℕ → ℕ
  padded addr buf len m i = if ltb i len then buf i else peek ((addr + i) % address_space) m % 256

  -- The third loop, for `n` words from word `i` on.
  pub write_words : (n addr : ℕ) → (ℕ → ℕ) → (i : ℕ) → Mem → Option Mem
  unfolding word_at chain
  write_words zero addr buf i m = some m
  write_words (suc n) addr buf i m =
      chain (poke ((addr + i * 8) % address_space) (word_at buf 8 (i * 8)) m)
        (write_words n addr buf (i + 1))

  -- `handle_write`; `none` means that the debugger has ended, or has written outside of `num` or of
  -- `buf`, into which it puts a `\0` behind the words.
  pub handle_write : (addr : ℕ) → (ℕ → ℕ) → (room len : ℕ) → Mem → Option Mem
  unfolding write_words
  handle_write addr buf room len m =
      if leb (words_of len) max_words && ltb (whole len) room
      then write_words (words_of len) addr (padded addr buf len m) 0 m
      else none
