-- ===== src/Eos/Format.antt =====
-- The conversion of numbers of MiniOS/eOS_student/core/common.c, which `eos_printf` uses. A string is
-- the list of its characters; `long` and `unsigned long` are words of 32 bits. The argument `size` is
-- the width that is left for padding: a negative one pads nothing, as 0 does, and a negative
-- `precision` is 0.
pub mod Laws
mod Tests
use snu_projects.Base.{
  ℕ, zero, suc, ◌+◌, ◌-◌, ◌*◌, ◌/◌, ◌%◌, ◌^◌, max, bit_and, Bool, true, false, not, ◌&&◌, ◌||◌,
  List, [], ◌∷◌, ◌++◌, Option, none, some, ◌==◌, ltb, leb, if◌then◌else◌, get_or, replicate, length,
  int_limit,
}

-- `ZEROPAD`, `SIGN`, `PLUS`, `SPACE`, `LEFT`, `SPECIAL` and `LARGE`
abbrev pub zeropad : ℕ
zeropad = 1

abbrev pub sign_flag : ℕ
sign_flag = 2

abbrev pub plus_flag : ℕ
plus_flag = 4

abbrev pub space_flag : ℕ
space_flag = 8

abbrev pub left_flag : ℕ
left_flag = 16

abbrev pub special : ℕ
special = 32

abbrev pub large : ℕ
large = 64

abbrev pub has : ℕ → ℕ → Bool
has type flag = not (bit_and type flag == 0)

-- `is_digit`
abbrev pub is_digit : ℕ → Bool
is_digit c = leb 48 c && leb c 57

-- `strnlen`; the list ends at the latest where the memory of the string does.
unfoldable pub strnlen : List ℕ → ℕ → ℕ
strnlen [] count = 0
strnlen (c ∷ cs) zero = 0
strnlen (c ∷ cs) (suc count) = let rest = strnlen cs count in if c == 0 then 0 else suc rest

-- `skip_atoi`: the number and the rest of the string, from a number on. `i*10 + c` is an `int`:
-- `none` is a sum above its greatest value, which has no defined result.
pub atoi_from : ℕ → List ℕ → Option (ℕ × List ℕ)
atoi_from i [] = some (i, [])
atoi_from i (c ∷ cs) =
    let further = atoi_from (i * 10 + c - 48) cs in
    if is_digit c then (if ltb (i * 10 + c) int_limit then further else none) else some (i, c ∷ cs)

abbrev pub skip_atoi : List ℕ → Option (ℕ × List ℕ)
skip_atoi s = atoi_from 0 s

-- The characters `from`, `from + 1` and so on.
abbrev pub run : ℕ → ℕ → List ℕ
run from zero = []
run from (suc n) = from ∷ run (from + 1) n

-- The digits and the small or the large letters.
abbrev pub digits : ℕ → List ℕ
digits type = run 48 10 ++ (if has type large then run 65 26 else run 97 26)

-- `while (num != 0) tmp[i++] = digits[do_div(num,base)];` A word has 32 digits at most.
unfoldable pub convert : (base type fuel num : ℕ) → List ℕ
convert base type zero num = []
convert base type (suc fuel) num =
    let further = convert base type fuel (num / base) in
    if num == 0 then [] else get_or (digits type) (num % base) 0 ∷ further

abbrev pub tmp : (base type num : ℕ) → List ℕ
tmp base type num = if num == 0 then 48 ∷ [] else convert base type 32 num

-- `while (i-- > 0) *str++ = tmp[i];` before the characters `after`
abbrev pub backwards : List ℕ → List ℕ → List ℕ
backwards [] after = after
backwards (c ∷ cs) after = backwards cs (c ∷ after)

-- The sign: the number without it, and the characters of it.
abbrev pub is_negative : ℕ → Bool
is_negative num = leb (2 ^ 31) num

abbrev pub magnitude : ℕ → ℕ → ℕ
magnitude type num = if has type sign_flag && is_negative num then (2 ^ 32 - num) % 2 ^ 32 else num

abbrev pub sign : ℕ → ℕ → List ℕ
sign type num =
    if not (has type sign_flag)
    then []
    else if is_negative num
    then 45 ∷ []
    else if has type plus_flag
    then 43 ∷ []
    else if has type space_flag
    then 32 ∷ []
    else []

-- What `SPECIAL` puts before the digits.
abbrev pub prefix : ℕ → ℕ → List ℕ
prefix base type =
    if not (has type special)
    then []
    else if base == 8
    then 48 ∷ []
    else if base == 16
    then 48 ∷ (get_or (digits type) 33 0 ∷ [])
    else []

-- The padding in front of the sign, behind the prefix and behind the digits, for what is left of
-- `size`.
abbrev pub pad_front : ℕ → ℕ → List ℕ
pad_front type left = if has type zeropad || has type left_flag then [] else replicate left 32

abbrev pub pad_inside : ℕ → ℕ → List ℕ
pad_inside type left =
    if has type left_flag then [] else if has type zeropad then replicate left 48 else []

abbrev pub pad_behind : ℕ → ℕ → List ℕ
pad_behind type left = if has type left_flag then replicate left 32 else []

-- The output of `number`, for the digits in `tmp`.
abbrev pub output : (num base size precision type : ℕ) → List ℕ → List ℕ
output num base size precision type ds =
    let width = max (length ds) precision in
    let left = size - length (sign type num) - length (prefix base type) - width in
    pad_front type left
    ++ (sign type num
        ++ (prefix base type
            ++ (pad_inside type left
                ++ (replicate (width - length ds) 48 ++ backwards ds (pad_behind type left)))))

-- `number`; `none` is the null pointer for a base that is not supported.
unfoldable pub number : (num base size precision type : ℕ) → Option (List ℕ)
unfolding convert
number num base size precision type =
    if ltb base 2 || ltb 36 base
    then none
    else some (output num base size precision type (tmp base type (magnitude type num)))
