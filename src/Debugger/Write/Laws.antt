-- ===== src/Debugger/Write/Laws.antt =====
-- `handle_write` changes the bytes that it is given and no others.
use snu_projects.Base.{
  ℕ, zero, suc, ◌+◌, ◌-◌, ◌*◌, ◌/◌, ◌%◌, ◌<◌, ◌≤◌, ◌≡◌, refl, ap, ◌∙◌, inl, inr, Bool, true, ◌&&◌,
  Option, none, some, arith, ltb, leb, if◌then◌else◌, Bool-cases,
}
use native.Mathlib.Nat.{mod-eq_of_lt}
use snu_projects.Debugger.Breakpoint.{address_space}
use snu_projects.Debugger.Breakpoint.Laws.{digit, IsMemory}
use snu_projects.Debugger.Write.{
  word_at, chain, max_words, words_of, whole, padded, write_words, handle_write,
}

digit-word_at :
    (buf : ℕ → ℕ) (n index i : ℕ)
    → ((j : ℕ) → buf j < 256)
    → i < n
    → digit i (word_at buf n index) ≡ buf (index + i)
unfolding digit word_at
digit-word_at buf zero index i byte lt = absurd (omega arith)
digit-word_at buf (suc n) index zero byte lt =
    let small = byte index in
    low (buf index) (word_at buf n (index + 1)) small ∙ ap buf (omega arith)
  where
    low : (b r : ℕ) → b < 256 → (b + 256 * r) % 256 ≡ b
    low b r h = omega arith
digit-word_at buf (suc n) index (suc i) byte lt =
    let small = byte index in
    ap (digit i) (high (buf index) (word_at buf n (index + 1)) small)
    ∙ digit-word_at buf n (index + 1) i byte (omega arith)
    ∙ ap buf (omega arith)
  where
    high : (b r : ℕ) → b < 256 → (b + 256 * r) / 256 ≡ r
    high b r h = omega arith

-- An address between two others.
abbrev within : ℕ → ℕ → ℕ → Bool
within from to x = leb from x && ltb x to

in_bounds : (from to x : ℕ) → within from to x ≡ true → (from ≤ x) × (x < to)
in_bounds from to x h = ground arith

-- A run of addresses that is joined to the one before.
joined :
    (start mid mid' stop stop' x new old d here : ℕ)
    → start ≤ mid
    → mid ≤ stop
    → mid ≡ mid'
    → stop ≡ stop'
    → here ≡ (if leb start x && ltb x mid' then d else old)
    → ((leb start x && ltb x mid') ≡ true → d ≡ new)
    → (if within mid stop x then new else here) ≡ (if within start stop' x then new else old)
joined start mid mid' stop stop' x new old d here le₁ le₂ e₁ e₂ e₃ e₄ = ground arith

-- A run of addresses of which the end holds what was there before.
trimmed :
    (addr addr' len stop x new old low : ℕ)
    → addr' ≡ addr
    → addr + len ≤ stop
    → (addr + len ≤ x → x < stop → low ≡ old)
    → (if within addr' stop x then (if ltb (x - addr) len then new else low) else old)
      ≡ (if leb addr x && ltb x (addr + len) then new else old)
trimmed addr addr' len stop x new old low e₁ le e₂ = ground arith

module _ {Mem : Type 0} (byte : Mem → ℕ → ℕ) (peek : ℕ → Mem → ℕ) (poke : ℕ → ℕ → Mem → Option Mem)
    (mapped : ℕ → Bool) (l : IsMemory byte peek poke mapped) where
  write_words_lem :
      (n addr : ℕ) (buf : ℕ → ℕ) (i : ℕ) (m : Mem)
      → ((j : ℕ) → buf j < 256)
      → addr + (i + n) * 8 ≤ address_space
      → ((j : ℕ) → j < i + n → mapped (addr + j * 8) ≡ true)
      → (m' : Mem) × (write_words peek poke n addr buf i m ≡ some m')
        × ((x : ℕ)
            → byte m' x
              ≡ (if within (addr + i * 8) (addr + (i + n) * 8) x then buf (x - addr) else byte m x))
  unfolding write_words
  write_words_lem zero addr buf i m byte_buf space all = (m, refl, λ x. ground arith)
  write_words_lem (suc n) addr buf i m byte_buf space all =
      let here : (addr + i * 8) % address_space ≡ addr + i * 8 = mod-eq_of_lt (omega arith) in
      let (m₁, ran₁, bytes₁) =
        l.writes m (addr + i * 8) (word_at buf 8 (i * 8)) (all i (omega arith)) in
      let (m₂, ran₂, bytes₂) =
        write_words_lem n addr buf (i + 1) m₁ byte_buf (omega arith)
          (λ j lt. all j (omega arith)) in
      (
        m₂,
        ap
              (λ a.
                chain (poke a (word_at buf 8 (i * 8)) m) (write_words peek poke n addr buf (i + 1)))
              here
            ∙ ap (λ o. chain o (write_words peek poke n addr buf (i + 1))) ran₁
            ∙ ran₂,
        λ x.
            bytes₂ x
            ∙ joined (addr + i * 8) (addr + (i + 1) * 8) (addr + i * 8 + 8) (addr + (i + 1 + n) * 8)
                (addr + (i + suc n) * 8) x (buf (x - addr)) (byte m x)
                (digit (x - (addr + i * 8)) (word_at buf 8 (i * 8))) (byte m₁ x) (omega arith)
                (omega arith) (omega arith) (omega arith) (bytes₁ x)
                (λ inside.
                  let (low, high) = in_bounds (addr + i * 8) (addr + i * 8 + 8) x inside in
                  digit-word_at buf 8 (i * 8) (x - (addr + i * 8)) byte_buf (omega arith)
                  ∙ ap buf (omega arith)),
      )

  -- `handle_write` of a buffer of bytes succeeds if its words fit in `num` and in the buffer with a
  -- `\0` behind them, the addresses of the words do not wrap around, the words that it writes are
  -- mapped, of which there is one more than the bytes fill, and so are those that it reads behind
  -- the bytes. Then the bytes of the buffer stand from the address on, as many as it was asked to
  -- write, and every other byte is as it was.
  pub handle_write_lem :
      (addr : ℕ) (buf : ℕ → ℕ) (room len : ℕ) (m : Mem)
      → ((j : ℕ) → buf j < 256)
      → words_of len ≤ max_words
      → whole len < room
      → addr + whole len ≤ address_space
      → ((j : ℕ) → j < words_of len → mapped (addr + j * 8) ≡ true)
      → ((a : ℕ) → addr + len ≤ a → a < addr + whole len → mapped a ≡ true)
      → (m' : Mem) × (handle_write peek poke addr buf room len m ≡ some m')
        × ((x : ℕ)
            → byte m' x ≡ (if leb addr x && ltb x (addr + len) then buf (x - addr) else byte m x))
  unfolding handle_write digit
  handle_write_lem addr buf room len m byte_buf few fits space written read =
      let (m', ran, bytes) =
        write_words_lem (words_of len) addr (padded peek poke addr buf len m) 0 m padded_small
          (omega arith) (λ j lt. written j (omega arith)) in
      (
        m',
        ap {A = Bool}
              (λ b.
                if b
                then write_words peek poke (words_of len) addr (padded peek poke addr buf len m) 0 m
                else none)
              guard
            ∙ ran,
        λ x.
            bytes x
            ∙ trimmed addr (addr + 0 * 8) len (addr + (0 + words_of len) * 8) x (buf (x - addr))
                (byte m x) (peek ((addr + (x - addr)) % address_space) m % 256) (omega arith)
                (omega arith)
                (λ le lt.
                  let same : (addr + (x - addr)) % address_space ≡ x =
                    mod-eq_of_lt (omega arith) ∙ omega arith in
                  ap (λ a. peek a m % 256) same
                  ∙ l.reads m x 0 (read x le (omega arith)) (omega arith)
                  ∙ ap (byte m) (omega arith)),
      )
    where
      guard : (leb (words_of len) max_words && ltb (whole len) room) ≡ true
      guard = ground arith

      padded_small : (j : ℕ) → padded peek poke addr buf len m j < 256
      padded_small j = elim (Bool-cases (ltb j len)) [
        | inl e ↦ rw e (byte_buf j)
        | inr e ↦ rw e (omega arith)
      ]
