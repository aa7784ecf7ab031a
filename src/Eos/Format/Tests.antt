-- ===== src/Eos/Format/Tests.antt =====
-- Runs of the conversions, and instances of their theorems.
use snu_projects.Base.{ℕ, ◌≡◌, refl, List, [], ◌∷◌, none, some, arith, if◌then◌else◌}
use snu_projects.Eos.Format.{atoi_from, strnlen, number, skip_atoi, zeropad}
use snu_projects.Eos.Format.Laws.{is_readable, number-skip_atoi}

-- `%x` of 255 with `#` and a width of 6: two spaces before 0xff
hexadecimal : number 255 16 6 0 32 ≡ some (32 ∷ (32 ∷ (48 ∷ (120 ∷ (102 ∷ (102 ∷ []))))))
unfolding number
hexadecimal = refl

-- `%d` of -5
negative : number (4294967291) 10 0 0 2 ≡ some (45 ∷ (53 ∷ []))
unfolding number
negative = refl

limited : strnlen (97 ∷ (98 ∷ (0 ∷ []))) 8 ≡ 2
unfolding strnlen
limited = refl

-- The greatest number that is read back, and the next one.
greatest : skip_atoi (50 ∷ 49 ∷ 52 ∷ 55 ∷ 52 ∷ 56 ∷ 51 ∷ 53 ∷ 57 ∷ 57 ∷ []) ≡ some (2147483599, [])
unfolding atoi_from
greatest = refl

too_great : skip_atoi (50 ∷ 49 ∷ 52 ∷ 55 ∷ 52 ∷ 56 ∷ 51 ∷ 54 ∷ 48 ∷ 48 ∷ []) ≡ none
unfolding atoi_from
too_great = refl

number-skip_atoi_example :
    (s : List ℕ) × (number 307 10 6 4 zeropad ≡ some s)
    × (skip_atoi s ≡ (if is_readable 307 then some (307, []) else none))
number-skip_atoi_example = number-skip_atoi 307 6 4 (omega arith) (omega arith) (omega arith)
