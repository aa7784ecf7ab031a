-- ===== src/Eos/Context.antt =====
-- The first context of a task: hal/linux/context.c. Memory is words of 32 bits at addresses; a word
-- that is not written keeps its value. Saving and restoring a context are assembly.
mod Tests
use snu_projects.Base.{ℕ, zero, suc, ◌+◌, ◌-◌, ◌*◌, ◌==◌, if◌then◌else◌}

abbrev pub Memory : Type 0
Memory = ℕ → ℕ

-- `*address = value`
abbrev pub store : (address value : ℕ) → Memory → Memory
store address value m a = if a == address then value else m a

-- The loop of `_os_create_context`, over `count` words downwards from the one at `stack_end - i`.
clear_words : (stack_end i count : ℕ) → Memory → Memory
clear_words stack_end i zero m = m
clear_words stack_end i (suc count) m =
    clear_words stack_end (i + 1) count (store (stack_end - 4 * i) 0 m)

-- `_os_create_context`: the stack pointer, and the memory with the context.
pub create_context : (stack_base stack_size entry arg : ℕ) → Memory → ℕ × Memory
unfolding clear_words
create_context stack_base stack_size entry arg m =
    let stack_end = stack_base + stack_size - 1 in
    let m₁ = store stack_end arg m in
    let m₂ = store (stack_end - 4) 0 m₁ in
    let m₃ = store (stack_end - 8) entry m₂ in
    let m₄ = store (stack_end - 12) 1 m₃ in (stack_end - 44, clear_words stack_end 4 8 m₄)
