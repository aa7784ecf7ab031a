-- ===== src/Eos/Context/Tests.antt =====
-- Runs of `create_context` on a stack of 1024 bytes from 4096 on.
use snu_projects.Base.{ℕ, ◌-◌, ◌≡◌, refl}
use snu_projects.Eos.Context.{Memory, create_context}

abbrev made : ℕ × Memory
made = create_context 4096 1024 500 77 (λ a. 9)

-- The stack pointer, the resume point, the argument, the entry and the flags.
made_frame :
    (made.0 ≡ 5075)
    × (made.1 5119 ≡ 77)
    × (made.1 (5119 - 8) ≡ 500)
    × (made.1 (5119 - 12) ≡ 1)
    × (made.1 made.0 ≡ 0)
unfolding create_context
made_frame = (refl, refl, refl, refl, refl)
