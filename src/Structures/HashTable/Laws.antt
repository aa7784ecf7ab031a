-- ===== src/Structures/HashTable/Laws.antt =====
-- What `get` answers after `put` and `remove`.
use snu_projects.Base.{
  ℕ, zero, suc, ◌+◌, ◌-◌, ◌*◌, ◌/◌, ◌<◌, ◌%◌, ◌^◌, ◌≡◌, ◌≢◌, refl, sym, ap, subst, ◌∙◌, Bool, true,
  false, Option, none, some, arith, if◌then◌else◌, length, get_or-set_self, get_or-set_ne,
  Bool-cases, inl, inr,
}
use mathlib.Core.Bool.{false≢true}
use native.Mathlib.Nat.{mod-lt}
use snu_projects.Structures.HashTable.{
  HashSlot, fresh_slot, HashTable, slot_at, get_goes_on, put_goes_on, probe, probe_from_start, hits,
  got, get, fill, place, empty_slot, remove, get_pos, linear_probe, quad_probe,
}
use snu_projects.Structures.HashTable.Probe.{DiffersAt, probe-unchanged, probe-placed}

-- The table has as many slots as its size says, one at least, and the probing sequence stays in
-- it.
abbrev pub IsTable : (ℕ → ℕ → ℕ → ℕ) → HashTable → Type 0
IsTable get_next_pos t =
    (length t.table ≡ t.table_size)
    × (0 < t.table_size)
    × ((pos step : ℕ) → get_next_pos t.table_size pos step < t.table_size)

abbrev or_else {ℓ} : {A : Type ℓ} → A → Option A → A
or_else d none = d
or_else d (some x) = x

abbrev is_some {ℓ} : {A : Type ℓ} → Option A → Bool
is_some none = false
is_some (some x) = true

-- A result that a test guards.
guarded {ℓ} :
    {A : Type ℓ} (b : Bool) (x y : A) → (if b then some x else none) ≡ some y → (b ≡ true) × (x ≡ y)
guarded true x y e = (refl, ap (or_else x) e)
guarded false x y e = absurd (false≢true (ap is_some e))

hits_of_got :
    (t : HashTable) (key : ℕ) (at : ℕ × ℕ) (r : ℕ × ℕ)
    → got t key at ≡ some r
    → hits key (slot_at t at.0) ≡ true
hits_of_got t key at r e =
    (guarded (hits key (slot_at t at.0)) ((slot_at t at.0).value, at.1) r e).0

abbrev answer : ℕ → ℕ → HashSlot → Option (ℕ × ℕ)
answer key step s = if hits key s then some (s.value, step) else none

-- The slot that `put` writes.
abbrev filled : ℕ → ℕ → HashSlot
filled key value = record { key = key; value = value; is_empty = false; is_removed = false }

-- The slot that `remove` leaves.
abbrev emptied : HashSlot → HashSlot
emptied s = record { key = s.key; value = s.value; is_empty = true; is_removed = true }

stops_at_emptied :
    (key : ℕ) (s : HashSlot) → hits key s ≡ true → get_goes_on key (emptied s) ≡ false
stops_at_emptied key s h = ground arith

halts_at_empty : (key : ℕ) (s : HashSlot) → s.is_empty ≡ true → put_goes_on key s ≡ false
halts_at_empty key s e = ground arith

halts_at_hit : (key : ℕ) (s : HashSlot) → hits key s ≡ true → put_goes_on key s ≡ false
halts_at_hit key s h = ground arith

answer-filled : (key value step : ℕ) → answer key step (filled key value) ≡ some (value, step)
answer-filled key value step = ground arith

stops_at_filled : (key value : ℕ) → get_goes_on key (filled key value) ≡ false
stops_at_filled key value = ground arith

passes_filled : (other key value : ℕ) → other ≢ key → get_goes_on other (filled key value) ≡ true
passes_filled other key value ne = ground arith

empty_misses : (key : ℕ) (s : HashSlot) → s.is_empty ≡ true → hits key s ≡ false
empty_misses key s e = ground arith

other_misses :
    (other key : ℕ) (s : HashSlot) → other ≢ key → hits key s ≡ true → hits other s ≡ false
other_misses other key s ne h = ground arith

passes_emptied :
    (other key : ℕ) (s : HashSlot)
    → other ≢ key
    → hits key s ≡ true
    → get_goes_on other (emptied s) ≡ true
passes_emptied other key s ne h = ground arith

fill-DiffersAt : (t : HashTable) (p key value : ℕ) → DiffersAt t (fill t p key value) p
fill-DiffersAt t p key value =
    (refl, λ i ne. get_or-set_ne t.table p i _ fresh_slot (λ e. ne (sym e)))

empty_slot-DiffersAt : (t : HashTable) (p : ℕ) → DiffersAt t (empty_slot t p) p
empty_slot-DiffersAt t p = (refl, λ i ne. get_or-set_ne t.table p i _ fresh_slot (λ e. ne (sym e)))

module _ (hash : ℕ → ℕ) (get_next_pos : ℕ → ℕ → ℕ → ℕ) where
  in_table :
      (t : HashTable) (p : ℕ) → IsTable get_next_pos t → p < t.table_size → p < length t.table
  in_table t p ok lt = omega (arith, ok.0)

  probe_below :
      (goes_on : HashSlot → Bool) (t : HashTable)
      → IsTable get_next_pos t
      → (init left pos step : ℕ) → pos < t.table_size
      → (probe hash get_next_pos goes_on t init left pos step).0 < t.table_size
  unfolding probe
  probe_below goes_on t ok init zero pos step lt = lt
  probe_below goes_on t ok init (suc left) pos step lt =
      elim (Bool-cases (goes_on (slot_at t pos))) [
        | inl e ↦ rw e (
            probe_below goes_on t ok init left (get_next_pos t.table_size init step) (step + 1)
              (ok.2 init step))
        | inr e ↦ rw e (lt)
      ]

  start_below :
      (goes_on : HashSlot → Bool) (t : HashTable) (key : ℕ)
      → IsTable get_next_pos t
      → (probe_from_start hash get_next_pos goes_on t key).0 < t.table_size
  start_below goes_on t key ok =
      probe_below goes_on t ok (get_pos hash get_next_pos t key) (t.table_size - 1)
        (get_pos hash get_next_pos t key) 1 (mod-lt (hash key) ok.1)

  -- A table that differs in a slot that does not matter for a key.
  still_found :
      (t u : HashTable) (p other : ℕ) (r : ℕ × ℕ)
      → DiffersAt t u p
      → hits other (slot_at t p) ≡ false
      → get_goes_on other (slot_at u p) ≡ true
      → get hash get_next_pos t other ≡ some r
      → get hash get_next_pos u other ≡ some r
  unfolding get
  still_found t u p other r differ miss pass found =
      let at = probe_from_start hash get_next_pos (get_goes_on other) t other in
      let hit = hits_of_got t other at r found in
      ap
        (λ n. got u other (
          probe hash get_next_pos (get_goes_on other) u (hash other % n) (n - 1) (hash other % n)
            1))
        (sym differ.0)
      ∙ ap (got u other) (
          probe-unchanged hash get_next_pos t u p other differ miss pass
            (get_pos hash get_next_pos t other) (t.table_size - 1)
            (get_pos hash get_next_pos t other) 1 hit)
      ∙ ap (answer other at.1) (
          differ.1 at.0
            (λ e. false≢true (sym miss ∙ sym (ap (λ i. hits other (slot_at t i)) e) ∙ hit)))
      ∙ found

  -- In a table with a probing sequence that stays in it, when `put`, up to its test of the load
  -- factor, returns a number of steps for a key, `get` finds the key in the new table, with its
  -- value and after as many steps.
  pub get-place :
      (t u : HashTable) (key value step : ℕ)
      → IsTable get_next_pos t
      → place hash get_next_pos t key value ≡ some (step, u)
      → get hash get_next_pos u key ≡ some (value, step)
  unfolding place get
  get-place t u key value step ok e =
      let at = probe_from_start hash get_next_pos (put_goes_on key) t key in
      let (free, result) =
        guarded (slot_at t at.0).is_empty (at.1, fill t at.0 key value) (step, u) e in
      let here =
        get_or-set_self t.table at.0 (filled key value) fresh_slot
          (in_table t at.0 ok (start_below (put_goes_on key) t key ok)) in
      subst (λ r. get hash get_next_pos r.1 key ≡ some (value, r.0)) result
        (ap (got (fill t at.0 key value) key) (
            probe-placed hash get_next_pos t (fill t at.0 key value) at.0 key
              (fill-DiffersAt t at.0 key value) (halts_at_empty key (slot_at t at.0) free)
              (ap (get_goes_on key) here ∙ stops_at_filled key value)
              (get_pos hash get_next_pos t key) (t.table_size - 1) (get_pos hash get_next_pos t key)
              1 refl)
          ∙ ap (answer key at.1) here
          ∙ answer-filled key value at.1)

  -- In a table with a probing sequence that stays in it, putting a key, up to the test of the
  -- load factor, leaves every other key that `get` finds where it is.
  pub get-place_other :
      (t u : HashTable) (key other value step : ℕ) (r : ℕ × ℕ)
      → IsTable get_next_pos t
      → other ≢ key
      → place hash get_next_pos t key value ≡ some (step, u)
      → get hash get_next_pos t other ≡ some r
      → get hash get_next_pos u other ≡ some r
  unfolding place get
  get-place_other t u key other value step r ok ne e found =
      let at = probe_from_start hash get_next_pos (put_goes_on key) t key in
      let (free, result) =
        guarded (slot_at t at.0).is_empty (at.1, fill t at.0 key value) (step, u) e in
      let here =
        get_or-set_self t.table at.0 (filled key value) fresh_slot
          (in_table t at.0 ok (start_below (put_goes_on key) t key ok)) in
      subst (λ o. get hash get_next_pos o.1 other ≡ some r) result
        (still_found t (fill t at.0 key value) at.0 other r (fill-DiffersAt t at.0 key value)
          (empty_misses other (slot_at t at.0) free)
          (ap (get_goes_on other) here ∙ passes_filled other key value ne) found)

  -- In a table with a probing sequence that stays in it, `get` does not find a key that `remove`
  -- has removed.
  pub get-remove :
      (t u : HashTable) (key step : ℕ)
      → IsTable get_next_pos t
      → remove hash get_next_pos t key ≡ some (step, u)
      → get hash get_next_pos u key ≡ none
  unfolding remove get
  get-remove t u key step ok e =
      let at = probe_from_start hash get_next_pos (put_goes_on key) t key in
      let (hit, result) =
        guarded (hits key (slot_at t at.0)) (at.1, empty_slot t at.0) (step, u) e in
      let s = slot_at t at.0 in
      let here =
        get_or-set_self t.table at.0 (emptied s) fresh_slot
          (in_table t at.0 ok (start_below (put_goes_on key) t key ok)) in
      subst (λ o. get hash get_next_pos o.1 key ≡ none) result
        (ap (got (empty_slot t at.0) key) (
            probe-placed hash get_next_pos t (empty_slot t at.0) at.0 key
              (empty_slot-DiffersAt t at.0) (halts_at_hit key s hit)
              (ap (get_goes_on key) here ∙ stops_at_emptied key s hit)
              (get_pos hash get_next_pos t key) (t.table_size - 1) (get_pos hash get_next_pos t key)
              1 refl)
          ∙ ap (answer key at.1) here)

  -- In a table with a probing sequence that stays in it, `remove` of a key leaves every other
  -- key that `get` finds where it is, with its value and after as many steps.
  pub get-remove_other :
      (t u : HashTable) (key other step : ℕ) (r : ℕ × ℕ)
      → IsTable get_next_pos t
      → other ≢ key
      → remove hash get_next_pos t key ≡ some (step, u)
      → get hash get_next_pos t other ≡ some r
      → get hash get_next_pos u other ≡ some r
  unfolding remove get
  get-remove_other t u key other step r ok ne e found =
      let at = probe_from_start hash get_next_pos (put_goes_on key) t key in
      let (hit, result) =
        guarded (hits key (slot_at t at.0)) (at.1, empty_slot t at.0) (step, u) e in
      let s = slot_at t at.0 in
      let here =
        get_or-set_self t.table at.0 (emptied s) fresh_slot
          (in_table t at.0 ok (start_below (put_goes_on key) t key ok)) in
      subst (λ o. get hash get_next_pos o.1 other ≡ some r) result
        (still_found t (empty_slot t at.0) at.0 other r (empty_slot-DiffersAt t at.0)
          (other_misses other key s ne hit)
          (ap (get_goes_on other) here ∙ passes_emptied other key s ne hit) found)

-- Both probing sequences stay in the table.
pub linear_probe-lt : (n pos step : ℕ) → 0 < n → linear_probe n pos step < n
unfolding linear_probe
linear_probe-lt n pos step some_slot = mod-lt ((pos + step) % 2 ^ 64) some_slot

pub quad_probe-lt : (n pos step : ℕ) → 0 < n → quad_probe n pos step < n
unfolding quad_probe
quad_probe-lt n pos step some_slot =
    mod-lt ((pos + ((step * ((step + 1) % 2 ^ 64)) % 2 ^ 64) / 2) % 2 ^ 64) some_slot
