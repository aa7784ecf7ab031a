-- ===== src/Debugger/Maps.antt =====
-- The permissions of a map: snudebugger/snudbg/src/procmaps.c.
mod Tests
use snu_projects.Base.{ℕ, bit_or, List, [], ◌∷◌, ◌==◌, if◌then◌else◌, get_or}

-- `PERMS_READ`, `PERMS_WRITE`, `PERMS_EXECUTE`, `PERMS_PRIVATE`, `PERMS_SHARED`
abbrev pub perms_read : ℕ
perms_read = 1

abbrev pub perms_write : ℕ
perms_write = 2

abbrev pub perms_execute : ℕ
perms_execute = 4

abbrev pub perms_private : ℕ
perms_private = 8

abbrev pub perms_shared : ℕ
perms_shared = 16

-- `if (perms[i] == c) perm |= flag;`; behind the string is `\0`.
add_flag : List ℕ → (i c flag : ℕ) → ℕ → ℕ
add_flag perms i c flag perm = if get_or perms i 0 == c then bit_or perm flag else perm

-- `make_perms`; the characters are `r`, `w`, `x`, `p` and `s`.
pub make_perms : List ℕ → ℕ
unfolding add_flag
make_perms perms =
    let perm₁ = add_flag perms 0 114 perms_read 0 in
    let perm₂ = add_flag perms 1 119 perms_write perm₁ in
    let perm₃ = add_flag perms 2 120 perms_execute perm₂ in
    if get_or perms 3 0 == 112
    then bit_or perm₃ perms_private
    else add_flag perms 3 115 perms_shared perm₃
