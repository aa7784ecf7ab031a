-- ===== src/Eos/Format/Laws.antt =====
-- `skip_atoi` reads what `number` writes.
use snu_projects.Base.{
  ℕ, zero, suc, ◌+◌, ◌-◌, ◌*◌, ◌/◌, ◌%◌, ◌^◌, ◌≤◌, ◌<◌, max, ◌≡◌, refl, sym, ap, ◌∙◌, Bool, true,
  false, ◌||◌, List, [], ◌∷◌, ◌++◌, ltb, int_limit, Option, none, some, ◌==◌, if◌then◌else◌, get_or,
  replicate, length, length-append, arith, Bool-cases, inl, inr, eq_of_==,
}
use snu_projects.Eos.Format.{
  zeropad, large, has, is_digit, atoi_from, skip_atoi, run, digits, convert, tmp, backwards, output,
  number, pad_front, pad_inside, pad_behind, sign, prefix, left_flag,
}

-- The string does not go on with a digit.
abbrev pub NoDigit : List ℕ → Type 0
NoDigit [] = Unit {0}
NoDigit (c ∷ cs) = is_digit c ≡ false

-- The value of digits, the last one first.
abbrev value : List ℕ → ℕ
value [] = 0
value (c ∷ cs) = (c - 48) + 10 * value cs

abbrev AllDigits : List ℕ → Type 0
AllDigits [] = Unit {0}
AllDigits (c ∷ cs) = (48 ≤ c) × (c ≤ 57) × AllDigits cs

get_or-run : (from n d : ℕ) (ys : List ℕ) → d < n → get_or (run from n ++ ys) d 0 ≡ from + d
get_or-run from zero d ys lt = absurd (omega arith)
get_or-run from (suc n) zero ys lt = omega arith
get_or-run from (suc n) (suc d) ys lt = omega (arith, get_or-run (from + 1) n d ys (omega arith))

atoi_from-digit :
    (i c : ℕ) (cs : List ℕ)
    → 48 ≤ c
    → c ≤ 57
    → atoi_from i (c ∷ cs)
      ≡ (if ltb (i * 10 + c) int_limit then atoi_from (i * 10 + c - 48) cs else none)
unfolding atoi_from
atoi_from-digit i c cs low high = ground arith

atoi_from-NoDigit : (i : ℕ) (cs : List ℕ) → NoDigit cs → atoi_from i cs ≡ some (i, cs)
unfolding atoi_from
atoi_from-NoDigit i [] h = refl
atoi_from-NoDigit i (c ∷ cs) h = rw h (refl)

-- Zeros in front.
atoi_from-zeros : (n : ℕ) (cs : List ℕ) → skip_atoi (replicate n 48 ++ cs) ≡ skip_atoi cs
atoi_from-zeros zero cs = refl
atoi_from-zeros (suc n) cs =
    atoi_from-digit 0 48 (replicate n 48 ++ cs) (omega arith) (omega arith) ∙ atoi_from-zeros n cs

-- A number of which the last digit can be added as a character.
abbrev pub is_readable : ℕ → Bool
is_readable num = ltb (num + 48) int_limit

read_on :
    {A : Type 0} (v c w w' : ℕ) (x : Option A)
    → 48 ≤ c
    → w ≡ v * 10 + c - 48
    → w' ≡ w
    → (if is_readable v then (if ltb (v * 10 + c) int_limit then x else none) else none)
      ≡ (if is_readable w' then x else none)
read_on v c w w' x low e e' = elim (Bool-cases (is_readable w')) [
  | inl r ↦ rw (r, first r, second r) refl
  | inr r ↦ elim (Bool-cases (is_readable v)) [
    | inl h ↦ rw (r, h, third r) refl
    | inr h ↦ rw (r, h) refl
  ]
]
  where
    first : is_readable w' ≡ true → is_readable v ≡ true
    first r = ground arith

    second : is_readable w' ≡ true → ltb (v * 10 + c) int_limit ≡ true
    second r = ground arith

    third : is_readable w' ≡ false → ltb (v * 10 + c) int_limit ≡ false
    third r = ground arith

atoi_from-backwards :
    (ds cs : List ℕ)
    → AllDigits ds
    → skip_atoi (backwards ds cs)
      ≡ (if is_readable (value ds) then atoi_from (value ds) cs else none)
atoi_from-backwards [] cs h = refl
atoi_from-backwards (c ∷ ds) cs h =
    atoi_from-backwards ds (c ∷ cs) h.2
    ∙ ap (λ o. if is_readable (value ds) then o else none)
        (atoi_from-digit (value ds) c cs h.0 h.1
          ∙ ap (λ i. if ltb (value ds * 10 + c) int_limit then atoi_from i cs else none) shifted)
    ∙ read_on (value ds) c (value ds * 10 + c - 48) (value (c ∷ ds)) (atoi_from (value (c ∷ ds)) cs)
        h.0 refl (sym shifted)
  where
    shifted : value ds * 10 + c - 48 ≡ value (c ∷ ds)
    shifted = omega (arith, h.0)

digit_char : (type d : ℕ) → d < 10 → get_or (digits type) d 0 ≡ 48 + d
digit_char type d lt = get_or-run 48 10 d (if has type large then run 65 26 else run 97 26) lt

-- The digits of a number below a power of 2, in the base 10.
convert_lem :
    (type fuel num : ℕ)
    → num < 2 ^ fuel
    → (value (convert 10 type fuel num) ≡ num) × AllDigits (convert 10 type fuel num)
unfolding convert
convert_lem type zero num lt = (omega arith, tt)
convert_lem type (suc fuel) num lt = elim (Bool-cases (num == 0)) [
  | inl e ↦ rw e ((sym (eq_of_== num 0 e), tt))
  | inr e ↦
      let (rest, all) = convert_lem type fuel (num / 10) (omega (arith, pow_suc fuel)) in
      let here = digit_char type (num % 10) (omega arith) in
      rw e ((omega arith, (omega arith, omega arith, all)))
]
  where
    pow_suc : (n : ℕ) → 2 ^ suc n ≡ 2 * 2 ^ n
    pow_suc n = omega arith

tmp_lem :
    (type num : ℕ) → num < 2 ^ 32 → (value (tmp 10 type num) ≡ num) × AllDigits (tmp 10 type num)
tmp_lem type num lt = elim (Bool-cases (num == 0)) [
  | inl e ↦ rw e ((sym (eq_of_== num 0 e), (omega arith, omega arith, tt)))
  | inr e ↦ rw e (convert_lem type 32 num lt)
]

-- `number` in the base 10, for a number of 32 bits, padded with zeros to any width and precision
-- below `2 ^ 31`, writes characters that `skip_atoi` reads as the same number, up to the end, exactly
-- if the number plus 48, the character 0, is below `2 ^ 31`; for greater numbers the `int` in which
-- `skip_atoi` adds up the digits overflows.
pub number-skip_atoi :
    (num size precision : ℕ)
    → num < 2 ^ 32
    → size < int_limit
    → precision < int_limit
    → (s : List ℕ) × (number num 10 size precision zeropad ≡ some s)
      × (skip_atoi s ≡ (if is_readable num then some (num, []) else none))
unfolding number
number-skip_atoi num size precision lt small_size small_precision =
    let ds = tmp 10 zeropad num in
    let (is_num, all) = tmp_lem zeropad num lt in
    let width = max (length ds) precision in
    (
      output num 10 size precision zeropad ds,
      refl,
      atoi_from-zeros (size - 0 - 0 - width) (replicate (width - length ds) 48 ++ backwards ds [])
          ∙ atoi_from-zeros (width - length ds) (backwards ds [])
          ∙ atoi_from-backwards ds [] all
          ∙ ap (λ i. if is_readable i then atoi_from i [] else none) is_num
          ∙ ap (λ o. if is_readable num then o else none) (atoi_from-NoDigit num [] tt),
    )

length-replicate : (n c : ℕ) → length (replicate n c) ≡ n
length-replicate zero c = refl
length-replicate (suc n) c = ap suc (length-replicate n c)

length-backwards : (ds cs : List ℕ) → length (backwards ds cs) ≡ length ds + length cs
length-backwards [] cs = omega arith
length-backwards (d ∷ ds) cs = omega (arith, length-backwards ds (d ∷ cs))

padding_of :
    (z l : Bool) (left : ℕ)
    → length {A = ℕ} (if z || l then [] else replicate left 32)
        + length {A = ℕ} (if l then [] else if z then replicate left 48 else [])
        + length {A = ℕ} (if l then replicate left 32 else [])
      ≡ left
padding_of true true left = omega (arith, length-replicate left 32)
padding_of true false left = omega (arith, length-replicate left 48)
padding_of false true left = omega (arith, length-replicate left 32)
padding_of false false left = omega (arith, length-replicate left 32)

counted :
    (size s p d precision f i b z all : ℕ)
    → all ≡ f + s + p + i + z + d + b
    → f + i + b ≡ size - s - p - max d precision
    → z ≡ max d precision - d
    → all ≡ max size (s + p + max d precision)
counted size s p d precision f i b z all e₁ e₂ e₃ = omega arith

-- The padding is put in one of the three places.
padding :
    (type left : ℕ)
    → length (pad_front type left) + length (pad_inside type left) + length (pad_behind type left)
      ≡ left
padding type left = padding_of (has type zeropad) (has type left_flag) left

-- The characters of the output, counted part by part.
total :
    (front sgn pre inside zeros ds behind : List ℕ)
    → length (front ++ (sgn ++ (pre ++ (inside ++ (zeros ++ backwards ds behind)))))
      ≡ length front
        + length sgn
        + length pre
        + length inside
        + length zeros
        + length ds
        + length behind
total front sgn pre inside zeros ds behind =
    let parts₁ = length-append front (sgn ++ (pre ++ (inside ++ (zeros ++ backwards ds behind)))) in
    let parts₂ = length-append sgn (pre ++ (inside ++ (zeros ++ backwards ds behind))) in
    let parts₃ = length-append pre (inside ++ (zeros ++ backwards ds behind)) in
    let parts₄ = length-append inside (zeros ++ backwards ds behind) in
    let parts₅ = length-append zeros (backwards ds behind) in
    let parts₆ = length-backwards ds behind in omega arith

-- The output of `number` is as long as `size` asks for, or as the sign, the prefix and the digits need
-- if that is longer.
pub length-output :
    (num base size precision type : ℕ) (ds : List ℕ)
    → length (output num base size precision type ds)
      ≡ max size (length (sign type num) + length (prefix base type) + max (length ds) precision)
length-output num base size precision type ds =
    let sgn = sign type num in
    let pre = prefix base type in
    let width = max (length ds) precision in
    let left = size - length sgn - length pre - width in
    let whole =
      total (pad_front type left) sgn pre (pad_inside type left) (replicate (width - length ds) 48)
        ds (pad_behind type left) in
    let pads = padding type left in
    let zeros = length-replicate (width - length ds) 48 in
    counted size (length sgn) (length pre) (length ds) precision (length (pad_front type left))
      (length (pad_inside type left)) (length (pad_behind type left))
      (length (replicate (width - length ds) 48)) (length (output num base size precision type ds))
      whole pads zeros
