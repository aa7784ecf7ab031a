-- ===== src/Debugger/ByteMemory.antt =====
-- A memory of bytes as a function, which does what `ptrace` is asked to do: an instance of
-- `IsMemory` for the runs of the debugger.
use snu_projects.Base.{
  ℕ, zero, suc, ◌+◌, ◌-◌, ◌*◌, ◌/◌, ◌%◌, ◌<◌, ◌≡◌, refl, ap, ◌∙◌, Bool, true, false, ◌&&◌, Option,
  some, arith, ltb, leb, if◌then◌else◌, Bool-cases, ◌⊎◌, inl, inr,
}
use snu_projects.Debugger.Breakpoint.Laws.{digit, IsMemory}

-- Addresses hold numbers, of which the low byte counts.
abbrev pub Bytes : Type 0
Bytes = ℕ → ℕ

abbrev pub byte_of : Bytes → ℕ → ℕ
byte_of m a = m a % 256

-- The word of `n` bytes at an address.
abbrev pub assemble : ℕ → Bytes → ℕ → ℕ
assemble zero m a = 0
assemble (suc n) m a = (m a % 256) + 256 * assemble n m (a + 1)

abbrev pub peek_bytes : ℕ → Bytes → ℕ
peek_bytes a m = assemble 8 m a

abbrev pub poke_bytes : ℕ → ℕ → Bytes → Option Bytes
poke_bytes a v m = some (λ x. if leb a x && ltb x (a + 8) then digit (x - a) v else m x)

abbrev pub everywhere : ℕ → Bool
everywhere a = true

low_byte_of : (c r : ℕ) → (c % 256 + 256 * r) % 256 ≡ c % 256
low_byte_of c r = omega arith

digit-assemble :
    (n : ℕ) (m : Bytes) (a i : ℕ) → i < n → digit i (assemble n m a) ≡ byte_of m (a + i)
unfolding digit
digit-assemble zero m a i lt = absurd (omega arith)
digit-assemble (suc n) m a zero lt =
    low_byte_of (m a) (assemble n m (a + 1)) ∙ ap (byte_of m) (omega arith)
digit-assemble (suc n) m a (suc i) lt =
    ap (digit i) (omega arith)
    ∙ digit-assemble n m (a + 1) i (omega arith)
    ∙ ap (byte_of m) (omega arith)

digit-lt : (i v : ℕ) → digit i v < 256
unfolding digit
digit-lt zero v = omega arith
digit-lt (suc i) v = digit-lt i (v / 256)

pub bytes-IsMemory : IsMemory byte_of peek_bytes poke_bytes everywhere
bytes-IsMemory = record {
  reads = λ m a i h lt. digit-assemble 8 m a i lt;
  writes = λ m a v h. (_, refl, λ x. written m a v x (Bool-cases (leb a x && ltb x (a + 8))));
}
  where
    written :
        (m : Bytes) (a v x : ℕ)
        → ((leb a x && ltb x (a + 8)) ≡ true) ⊎ ((leb a x && ltb x (a + 8)) ≡ false)
        → ((if leb a x && ltb x (a + 8) then digit (x - a) v else m x) % 256)
          ≡ (if leb a x && ltb x (a + 8) then digit (x - a) v else byte_of m x)
    written m a v x (inl y) = rw y (omega (arith, digit-lt (x - a) v))
    written m a v x (inr n) = rw n refl
