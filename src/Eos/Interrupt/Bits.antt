-- ===== src/Eos/Interrupt/Bits.antt =====
-- The bits of the interrupt registers: what `&` with a power of two, and with its complement, does.
use Prim.Native.Nat.{digits, bit_and-bitwise}
use snu_projects.Base.{
  ℕ, zero, suc, ◌+◌, ◌-◌, ◌*◌, ◌/◌, ◌%◌, ◌^◌, ◌≤◌, ◌<◌, min, bit_and, ◌≡◌, refl, sym, ap, ◌∙◌, Bool,
  true, not, ◌&&◌, arith, ◌==◌, eq_of_==, all_below, below, if◌then◌else◌,
}
use snu_projects.Eos.Interrupt.{complement}

-- Bit `j`, the lowest one first.
abbrev pub bit : ℕ → ℕ → ℕ
bit zero a = a % 2
bit (suc j) a = bit j (a / 2)

bit_lt : (j a : ℕ) → bit j a < 2
bit_lt zero a = omega arith
bit_lt (suc j) a = bit_lt j (a / 2)

-- The digits of the conjunction, with a count that is as great as the number or greater.
abbrev counted : (n a b : ℕ) → ℕ
counted n a b = digits (λ b. zero) min n a b

counted-zero : (n b : ℕ) → counted n 0 b ≡ 0
counted-zero zero b = refl
counted-zero (suc n) b = refl

-- A count that is large enough gives one more digit in front of those of the halves.
counted-suc :
    (n a b : ℕ) → a ≤ n → counted (suc n) a b ≡ counted n (a / 2) (b / 2) * 2 + min (a % 2) (b % 2)
counted-suc n zero b le = omega (arith, counted-zero n (b / 2))
counted-suc n (suc a) b le = refl

counted_more : (n k a b : ℕ) → a ≤ n → counted (n + k) a b ≡ counted n a b
counted_more zero k zero b le = counted-zero (0 + k) b
counted_more zero k (suc a) b le = absurd (omega arith)
counted_more (suc n) k zero b le = counted-zero (suc n + k) b
counted_more (suc n) k (suc a) b le =
    ap (λ c. counted c (suc a) b) same
    ∙ ap (λ x. x * 2 + min (suc a % 2) (b % 2)) (counted_more n k (suc a / 2) (b / 2) (omega arith))
  where
    same : suc n + k ≡ suc (n + k)
    same = omega arith

bit_and-counted : (n a b : ℕ) → a ≤ n → bit_and a b ≡ counted n a b
bit_and-counted n a b le =
    bit_and-bitwise a b
    ∙ sym (counted_more a (n - a) a b (omega arith))
    ∙ ap (λ c. counted c a b) (omega arith)

-- The lowest bits of two numbers, and the rest.
bit_and_halves : (a b : ℕ) → bit_and a b ≡ bit_and (a / 2) (b / 2) * 2 + min (a % 2) (b % 2)
bit_and_halves a b =
    bit_and-counted (suc a) a b (omega arith)
    ∙ counted-suc a a b (omega arith)
    ∙ ap (λ x. x * 2 + min (a % 2) (b % 2)) (sym (bit_and-counted a (a / 2) (b / 2) (omega arith)))

-- A bit of a conjunction.
pub bit-bit_and : (j a b : ℕ) → bit j (bit_and a b) ≡ min (bit j a) (bit j b)
bit-bit_and zero a b = omega (arith, bit_and_halves a b)
bit-bit_and (suc j) a b =
    ap (bit j) (omega (arith, bit_and_halves a b)) ∙ bit-bit_and j (a / 2) (b / 2)

bit_and-zero : (n a : ℕ) → a ≤ n → bit_and a 0 ≡ 0
bit_and-zero zero a le = rw (bit_and-counted 0 a 0 le) refl
bit_and-zero (suc n) zero le = rw (bit_and-counted 0 0 0 (omega arith)) refl
bit_and-zero (suc n) (suc a) le =
    omega (arith, bit_and_halves (suc a) 0, bit_and-zero n (suc a / 2) (omega arith))

-- A conjunction with a power of two is that power or nothing.
bit_and-pow : (i a : ℕ) → bit_and a (2 ^ i) ≡ bit i a * 2 ^ i
bit_and-pow zero a = omega (arith, bit_and_halves a 1, bit_and-zero (a / 2) (a / 2) (omega arith))
bit_and-pow (suc i) a =
    bit_and_halves a (2 ^ suc i)
    ∙ ap (λ p. bit_and (a / 2) (p / 2) * 2 + min (a % 2) (p % 2)) twice
    ∙ ap (λ h. bit_and (a / 2) h * 2 + min (a % 2) ((2 * 2 ^ i) % 2)) (omega arith)
    ∙ ap (λ x. x * 2 + min (a % 2) ((2 * 2 ^ i) % 2)) (bit_and-pow i (a / 2))
    ∙ grown (bit i (a / 2)) (2 ^ i) (a % 2)
    ∙ ap (λ p. bit i (a / 2) * p) (sym twice)
  where
    twice : 2 ^ suc i ≡ 2 * 2 ^ i
    twice = omega arith

    grown : (x p u : ℕ) → x * p * 2 + min u ((2 * p) % 2) ≡ x * (2 * p)
    grown x p u = grind arith

positive_pow : (i : ℕ) → 0 < 2 ^ i
positive_pow zero = omega arith
positive_pow (suc i) = omega (arith, positive_pow i)

-- The test of a bit as the code writes it.
pub test-bit : (i a : ℕ) → not (bit_and a (2 ^ i) == 0) ≡ (bit i a == 1)
test-bit i a =
    ap (λ x. not (x == 0)) (bit_and-pow i a) ∙ told (bit i a) (2 ^ i) (bit_lt i a) (positive_pow i)
  where
    told : (x p : ℕ) → x < 2 → 0 < p → not (x * p == 0) ≡ (x == 1)
    told zero p lt pos_p = ground arith
    told (suc zero) p lt pos_p = ground arith
    told (suc (suc x)) p lt pos_p = absurd (omega arith)

complement_table :
    all_below 32 (λ i. all_below 32 (λ j. bit j (complement (2 ^ i)) == (if i == j then 0 else 1)))
    ≡ true
unfolding all_below
complement_table = refl

bit-complement :
    (i j : ℕ) → i < 32 → j < 32 → bit j (complement (2 ^ i)) ≡ (if i == j then 0 else 1)
bit-complement i j hi hj = eq_of_== _ _ (below _ j 32 hj (below _ i 32 hi complement_table))

-- A register from which one bit is taken has the others left.
pub test-cleared :
    (i j a : ℕ)
    → i < 32
    → j < 32
    → not (bit_and (bit_and a (complement (2 ^ i))) (2 ^ j) == 0)
      ≡ (not (i == j) && not (bit_and a (2 ^ j) == 0))
test-cleared i j a hi hj =
    test-bit j (bit_and a (complement (2 ^ i)))
    ∙ ap (λ x. x == 1)
        (bit-bit_and j a (complement (2 ^ i))
          ∙ ap (λ x. min (bit j a) x) (bit-complement i j hi hj))
    ∙ left (i == j) (bit j a) (bit_lt j a)
    ∙ ap (λ b. not (i == j) && b) (sym (test-bit j a))
  where
    left : (b : Bool) (x : ℕ) → x < 2 → (min x (if b then 0 else 1) == 1) ≡ (not b && (x == 1))
    left b x lt = ground arith
