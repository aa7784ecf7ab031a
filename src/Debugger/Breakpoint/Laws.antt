-- ===== src/Debugger/Breakpoint/Laws.antt =====
-- A breakpoint of snudebugger/snudbg/src/snudbg.c that has fired leaves no trace.
use snu_projects.Base.{
  ℕ, zero, suc, ◌+◌, ◌-◌, ◌/◌, ◌%◌, ◌<◌, ◌≤◌, ◌≡◌, refl, sym, ap, ap₂, ◌∙◌, ◌⊎◌, inl, inr, Bool,
  true, false, ◌&&◌, List, [], ◌∷◌, ◌++◌, Option, some, arith, ◌==◌, ==-self, ltb, leb, length,
  if◌then◌else◌, Bool-cases, eq_of_==,
}
use mathlib.Core.Option
use snu_projects.Debugger.Breakpoint.{
  Breakpoint, Debugger, address_space, max_bps, with_low_byte, take_fired, handle_read,
  handle_break, handle_break_post, restore,
}

-- Byte `i` of a word.
unfoldable pub digit : ℕ → ℕ → ℕ
digit zero v = v % 256
digit (suc i) v = digit i (v / 256)

digit-low : (v b i : ℕ) → b < 256 → digit i (with_low_byte v b) ≡ (if i == 0 then b else digit i v)
unfolding digit with_low_byte
digit-low v b zero h = omega arith
digit-low v b (suc i) h = ap (digit i) higher ∙ sym (later i)
  where
    higher : (v - v % 256 + b) / 256 ≡ v / 256
    higher = omega arith

    later : (i : ℕ) → (if suc i == 0 then b else digit i (v / 256)) ≡ digit i (v / 256)
    later i = ground arith

-- The bytes from an address on.
abbrev pub bytes_from : (byte : ℕ → ℕ) (addr len : ℕ) → List ℕ
bytes_from byte addr zero = []
bytes_from byte addr (suc len) = byte addr ∷ bytes_from byte (addr + 1) len

-- No breakpoint stops at this value of `rip`.
abbrev pub NoneFired : ℕ → List Breakpoint → Type 0
NoneFired rip [] = Unit {0}
NoneFired rip (bp ∷ bps) = ((rip == (bp.addr + 1) % address_space) ≡ false) × NoneFired rip bps

-- What `ptrace` does to a mapped word: a read gives its eight bytes, and a write sets them and no
-- others.
pub record IsMemory {Mem : Type 0} (byte : Mem → ℕ → ℕ) (peek : ℕ → Mem → ℕ)
    (poke : ℕ → ℕ → Mem → Option Mem) (mapped : ℕ → Bool) : Type 0 where
  pub reads : (m : Mem) (a i : ℕ) → mapped a ≡ true → i < 8 → digit i (peek a m) ≡ byte m (a + i)
  pub writes :
      (m : Mem) (a v : ℕ)
      → mapped a ≡ true
      → (m' : Mem) × (poke a v m ≡ some m')
        × ((x : ℕ) → byte m' x ≡ (if leb a x && ltb x (a + 8) then digit (x - a) v else byte m x))

module _ {Mem : Type 0} (byte : Mem → ℕ → ℕ) (peek : ℕ → Mem → ℕ) (poke : ℕ → ℕ → Mem → Option Mem)
    (mapped : ℕ → Bool) (l : IsMemory byte peek poke mapped) where
  -- Writing a word back with another low byte changes that byte alone.
  low_byte :
      (m : Mem) (a b : ℕ)
      → mapped a ≡ true
      → b < 256
      → (m' : Mem) × (poke a (with_low_byte (peek a m) b) m ≡ some m')
        × ((x : ℕ) → byte m' x ≡ (if x == a then b else byte m x))
  low_byte m a b h hb =
      let (m', ran, bytes) = l.writes m a (with_low_byte (peek a m) b) h in
      (m', ran, λ x. bytes x ∙ at x (Bool-cases (leb a x && ltb x (a + 8))))
    where
      low :
          (i : ℕ)
          → digit i (with_low_byte (peek a m) b) ≡ (if i == 0 then b else digit i (peek a m))
      low i = digit-low (peek a m) b i hb

      behind : (x : ℕ) → a ≤ x → x < a + 8 → digit (x - a) (peek a m) ≡ byte m x
      behind x le lt = l.reads m a (x - a) h (omega arith) ∙ ap (byte m) (omega arith)

      at :
          (x : ℕ)
          → ((leb a x && ltb x (a + 8)) ≡ true) ⊎ ((leb a x && ltb x (a + 8)) ≡ false)
          → (if leb a x && ltb x (a + 8)
              then digit (x - a) (with_low_byte (peek a m) b)
              else byte m x)
            ≡ (if x == a then b else byte m x)
      at x (inl y) = rw (y, low (x - a)) (ground (arith, behind x))
      at x (inr n) = rw n (ground arith)

  first_byte : (m : Mem) (a : ℕ) → mapped a ≡ true → peek a m % 256 ≡ byte m a
  unfolding digit
  first_byte m a h = l.reads m a 0 h (omega arith) ∙ ap (byte m) (omega arith)

  -- `handle_read` of mapped addresses gives the bytes of the memory, in order.
  pub handle_read-bytes_from :
      (addr len : ℕ) (d : Debugger Mem)
      → ((i : ℕ) → i < len → mapped (addr + i) ≡ true)
      → handle_read peek poke addr len d ≡ bytes_from (byte d.memory) addr len
  unfolding handle_read
  handle_read-bytes_from addr zero d h = refl
  handle_read-bytes_from addr (suc len) d h =
      ap₂ (λ (b : ℕ) (bs : List ℕ). b ∷ bs)
        (first_byte d.memory addr (ap mapped (omega arith) ∙ h 0 (omega arith)))
        (handle_read-bytes_from (addr + 1) len d
          (λ i lt. ap mapped (omega arith) ∙ h (i + 1) (omega arith)))

  take_fired-last :
      (rip : ℕ) (bps : List Breakpoint) (bp : Breakpoint)
      → NoneFired rip bps
      → rip ≡ (bp.addr + 1) % address_space
      → take_fired rip (bps ++ (bp ∷ [])) ≡ some (bp, bps)
  unfolding take_fired
  take_fired-last rip [] bp off e = rw (e, ==-self ((bp.addr + 1) % address_space)) refl
  take_fired-last rip (x ∷ bps) bp off e =
      rw off.0 (ap (Option.map (λ r. (r.0, x ∷ r.1))) (take_fired-last rip bps bp off.1 e))

  -- `handle_break` with room for a breakpoint at a mapped address sets that byte to 0xcc and no
  -- other; when the process stops there, and no earlier breakpoint stops at the same address,
  -- `handle_break_post` brings every byte and the list of breakpoints back to what they were, and
  -- sets `rip` to the address.
  pub handle_break-handle_break_post :
      (addr : ℕ) (d : Debugger Mem)
      → length d.bps < max_bps
      → mapped addr ≡ true
      → NoneFired ((addr + 1) % address_space) d.bps
      → (d₁ : Debugger Mem) × (d₂ : Debugger Mem) × (handle_break peek poke addr d ≡ some d₁)
        × ((x : ℕ) → byte d₁.memory x ≡ (if x == addr then 0xcc else byte d.memory x))
        × (handle_break_post peek poke (record d₁ { rip = (addr + 1) % address_space }) ≡ some d₂)
        × ((x : ℕ) → byte d₂.memory x ≡ byte d.memory x)
        × (d₂.bps ≡ d.bps)
        × (d₂.rip ≡ addr)
  unfolding handle_break handle_break_post restore
  handle_break-handle_break_post addr d room h off =
      let (m₁, ran₁, bytes₁) = low_byte d.memory addr 0xcc h (omega arith) in
      let (m₂, ran₂, bytes₂) = low_byte m₁ addr (peek addr d.memory % 256) h (omega arith) in
      (
        record { bps = d.bps ++ (bp ∷ []); memory = m₁; rip = d.rip },
        record { bps = d.bps; memory = m₂; rip = addr },
        rw guard (
            ap (Option.map (λ m. record { bps = d.bps ++ (bp ∷ []); memory = m; rip = d.rip }))
              ran₁),
        bytes₁,
        ap
              (λ o. restore peek poke o (record {
                bps = d.bps ++ (bp ∷ []);
                memory = m₁;
                rip = (addr + 1) % address_space;
              }))
              (take_fired-last ((addr + 1) % address_space) d.bps bp off refl)
            ∙ ap (Option.map (λ m. record { bps = d.bps; memory = m; rip = addr })) ran₂,
        (λ x. bytes₂ x ∙ back m₁ x (bytes₁ x) (Bool-cases (x == addr))),
        refl,
        refl,
      )
    where
      bp : Breakpoint
      bp = record { addr = addr; orig_value = peek addr d.memory % 256 }

      guard : leb max_bps (length d.bps) ≡ false
      guard = ground arith

      original : peek addr d.memory % 256 ≡ byte d.memory addr
      original = first_byte d.memory addr h

      back :
          (m₁ : Mem) (x : ℕ)
          → byte m₁ x ≡ (if x == addr then 0xcc else byte d.memory x)
          → ((x == addr) ≡ true) ⊎ ((x == addr) ≡ false)
          → (if x == addr then peek addr d.memory % 256 else byte m₁ x) ≡ byte d.memory x
      back m₁ x was (inl y) = rw (y, original) (ap (byte d.memory) (sym (eq_of_== x addr y)))
      back m₁ x was (inr n) = rw n (was ∙ rw n refl)
