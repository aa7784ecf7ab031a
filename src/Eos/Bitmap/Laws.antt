-- ===== src/Eos/Bitmap/Laws.antt =====
-- The bitmap of core/scheduler.c is a set of priorities below 64 with a least element.
use snu_projects.Base.{
  ℕ, ◌+◌, ◌*◌, ◌/◌, ◌%◌, ◌≤◌, ◌<◌, ◌≡◌, ◌≢◌, refl, sym, ◌∙◌, Bool, true, false, not, ◌&&◌, ◌||◌,
  bit_and, bit_or, ◌-◌, arith, ◌==◌, if◌then◌else◌, length, get_or, set, test_bit, length-set,
  get_or-set, get_or-replicate, ==-self, ◌⊎◌, Bool-cases, inl, inr, eq_of_==, ne_of_==,
  ne_of_not_==, ==_of_ne,
}
use snu_projects.Eos.Bitmap.{
  Bitmap, map_table, unmap_table, init_bitmap, get_highest_priority, set_ready, unset_ready,
}
use snu_projects.Eos.Bitmap.Bytes.{
  test_bit-or, or-lt, test_bit-and, and-lt, unmap-lt, unmap-test_bit, ne_zero_of_test_bit,
  unmap-le_of_test_bit, and_seven, &&-right,
}

-- Priority `p` is in the set: its bit in the table is 1.
unfoldable pub is_ready : Bitmap → ℕ → Bool
is_ready b p = test_bit (get_or b.table (p / 8) 0) (p % 8)

-- Eight byte entries, and a bit of the group for each entry that is not 0.
pub record IsValid (b : Bitmap) : Type 0 where
  pub group-lt : b.group < 256
  pub size : length b.table ≡ 8
  pub entries : (y : ℕ) → y < 8 → get_or b.table y 0 < 256
  pub linked : (y : ℕ) → y < 8 → test_bit b.group y ≡ not (get_or b.table y 0 == 0)

module _ (b : Bitmap) (v : IsValid b) where
  -- On a valid bitmap `_os_get_highest_priority` returns a priority below 64, so that the test
  -- `priority > LOWEST_PRIORITY` never passes.
  pub highest-lt : get_highest_priority b < 64
  unfolding get_highest_priority
  highest-lt = omega (
    arith,
    unmap-lt b.group v.group-lt,
    unmap-lt (get_or b.table (get_or unmap_table b.group 0) 0)
        (v.entries _ (unmap-lt b.group v.group-lt)),
  )

  group_of_ready : (p : ℕ) → p < 64 → is_ready b p ≡ true → test_bit b.group (p / 8) ≡ true
  unfolding is_ready
  group_of_ready p hp on =
      rw
        (
          v.linked (p / 8) (omega arith),
          ==_of_ne (get_or b.table (p / 8) 0) 0
              (ne_zero_of_test_bit _ (p % 8) (v.entries (p / 8) (omega arith)) (omega arith) on),
        )
        refl

  -- With a ready priority in a valid bitmap, `_os_get_highest_priority` returns a ready priority,
  -- and none that is smaller is ready.
  pub highest-is_ready :
      (p : ℕ)
      → p < 64
      → is_ready b p ≡ true
      → (is_ready b (get_highest_priority b) ≡ true) × (get_highest_priority b ≤ p)
  unfolding get_highest_priority is_ready
  highest-is_ready p hp on = (
    rw (quotient, remainder) lowest,
    elim (Bool-cases (y == p / 8)) [
      | inl e ↦ omega (arith, first, second (eq_of_== _ _ e))
      | inr ne ↦ omega (arith, first, x-lt, ne_of_== _ _ ne)
    ],
  )
    where
      y : ℕ
      y = get_or unmap_table b.group 0

      on_group : test_bit b.group (p / 8) ≡ true
      on_group = group_of_ready p hp on

      y-lt : y < 8
      y-lt = unmap-lt b.group v.group-lt

      entry : get_or b.table y 0 < 256
      entry = v.entries y y-lt

      x : ℕ
      x = get_or unmap_table (get_or b.table y 0) 0

      x-lt : x < 8
      x-lt = unmap-lt _ entry

      quotient : (y * 8 + x) / 8 ≡ y
      quotient = omega (arith, x-lt)

      remainder : (y * 8 + x) % 8 ≡ x
      remainder = omega (arith, x-lt)

      group_ne : b.group ≢ 0
      group_ne = ne_zero_of_test_bit b.group (p / 8) v.group-lt (omega arith) on_group

      used : not (get_or b.table y 0 == 0) ≡ true
      used = sym (v.linked y y-lt) ∙ unmap-test_bit b.group v.group-lt group_ne

      entry_ne : get_or b.table y 0 ≢ 0
      entry_ne = ne_of_not_== _ _ used

      lowest : test_bit (get_or b.table y 0) x ≡ true
      lowest = unmap-test_bit _ entry entry_ne

      first : y ≤ p / 8
      first = unmap-le_of_test_bit b.group (p / 8) v.group-lt (omega arith) on_group

      second : y ≡ p / 8 → x ≤ p % 8
      second e = unmap-le_of_test_bit _ (p % 8) entry (omega arith) (rw e on)

or_if : (c t : Bool) → (c || t) ≡ (if c then true else t)
or_if true t = refl
or_if false t = refl

not_and_if : (c t : Bool) → (not c && t) ≡ (if c then false else t)
not_and_if true t = refl
not_and_if false t = refl

-- The entry of `map_table` for a priority below 64.
seven : (p : ℕ) → p < 64 → bit_and (p % 256) 0x07 ≡ p % 8
seven p h = and_seven (p % 256) (omega arith) ∙ omega arith

eighth : (p : ℕ) → p < 64 → p % 256 / 8 ≡ p / 8
eighth p h = omega arith

-- Priorities are equal when their entries and their bits are.
split_== : (p q : ℕ) → (p == q) ≡ ((p / 8 == q / 8) && (p % 8 == q % 8))
split_== p q = ground arith

module _ (b : Bitmap) (v : IsValid b) where
  -- Writing an entry, with the group's bit for it, keeps the bitmap valid.
  write-IsValid :
      (y e g : ℕ)
      → y < 8
      → e < 256
      → g < 256
      → ((j : ℕ) → j < 8 → test_bit g j ≡ (if y == j then not (e == 0) else test_bit b.group j))
      → IsValid (record { group = g; table = set b.table y e })
  write-IsValid y e g hy he hg bits = record {
    group-lt = hg;
    size = length-set b.table y e ∙ v.size;
    entries = λ j hj. rw read_back (bound j hj (Bool-cases (y == j)));
    linked = λ j hj. rw (read_back, bits j hj) (link j hj (Bool-cases (y == j)));
  }
    where
      read_back :
          (j : ℕ) → get_or (set b.table y e) j 0 ≡ (if y == j then e else get_or b.table j 0)
      read_back j = get_or-set b.table y j e 0 (rw v.size hy)

      bound :
          (j : ℕ)
          → j < 8
          → ((y == j) ≡ true) ⊎ ((y == j) ≡ false)
          → (if y == j then e else get_or b.table j 0) < 256
      bound j hj (inl c) = rw c he
      bound j hj (inr c) = rw c (v.entries j hj)

      link :
          (j : ℕ)
          → j < 8
          → ((y == j) ≡ true) ⊎ ((y == j) ≡ false)
          → (if y == j then not (e == 0) else test_bit b.group j)
            ≡ not ((if y == j then e else get_or b.table j 0) == 0)
      link j hj (inl c) = rw c refl
      link j hj (inr c) = rw c (v.linked j hj)

module _ (b : Bitmap) (v : IsValid b) (p : ℕ) (hp : p < 64) where
  entry-lt : get_or b.table (p / 8) 0 < 256
  entry-lt = v.entries (p / 8) (omega arith)

  read_entry :
      (e q : ℕ)
      → get_or (set b.table (p / 8) e) (q / 8) 0
        ≡ (if p / 8 == q / 8 then e else get_or b.table (q / 8) 0)
  read_entry e q = get_or-set b.table (p / 8) (q / 8) e 0 (rw v.size (omega arith))

  -- `_os_set_ready` of a priority below 64 keeps a valid bitmap valid.
  pub set_ready-IsValid : IsValid (set_ready p b)
  unfolding set_ready
  set_ready-IsValid =
      rw (seven p hp, eighth p hp)
        (write-IsValid b v (p / 8) _ _ (omega arith) (or-lt _ (p % 8) entry-lt (omega arith))
          (or-lt b.group (p / 8) v.group-lt (omega arith))
          (λ j hj. rw (test_bit-or b.group (p / 8) j v.group-lt (omega arith) hj) (cases j hj)))
    where
      set_ne : (bit_or (get_or b.table (p / 8) 0) (get_or map_table (p % 8) 0) == 0) ≡ false
      set_ne = ==_of_ne (bit_or (get_or b.table (p / 8) 0) (get_or map_table (p % 8) 0)) 0 (
          ne_zero_of_test_bit _ (p % 8) (or-lt _ (p % 8) entry-lt (omega arith)) (omega arith) (
            rw
              (
                test_bit-or (get_or b.table (p / 8) 0) (p % 8) (p % 8) entry-lt (omega arith)
                    (omega arith),
                ==-self,
              )
              refl))

      cases :
          (j : ℕ)
          → j < 8
          → ((p / 8 == j) || test_bit b.group j) ≡ (
              if p / 8 == j
              then not (bit_or (get_or b.table (p / 8) 0) (get_or map_table (p % 8) 0) == 0)
              else test_bit b.group j)
      cases j hj = rw set_ne (or_if (p / 8 == j) (test_bit b.group j))

  -- On a valid bitmap `_os_set_ready` of a priority below 64 adds that priority to the set, and no
  -- other.
  pub is_ready-set_ready :
      (q : ℕ) → q < 64 → is_ready (set_ready p b) q ≡ ((p == q) || is_ready b q)
  unfolding set_ready is_ready
  is_ready-set_ready q hq =
      rw (seven p hp, eighth p hp, split_== p q, read_entry _ q)
        (elim (Bool-cases (p / 8 == q / 8)) [
          | inl e ↦
              rw (e, ← eq_of_== _ _ e)
                (test_bit-or _ (p % 8) (q % 8) entry-lt (omega arith) (omega arith))
          | inr ne ↦ rw ne refl
        ])

  abbrev rest : ℕ
  rest = bit_and (get_or b.table (p / 8) 0) (255 - get_or map_table (p % 8) 0)

  rest-lt : rest < 256
  rest-lt = and-lt (get_or b.table (p / 8) 0) (p % 8) entry-lt (omega arith)

  -- What is left of an entry is left of the group's bit.
  group_of_rest : rest ≢ 0 → test_bit b.group (p / 8) ≡ true
  group_of_rest ne =
      rw (v.linked (p / 8) (omega arith), ==_of_ne (get_or b.table (p / 8) 0) 0 entry_ne) refl
    where
      u : ℕ
      u = get_or unmap_table rest 0

      u-lt : u < 8
      u-lt = unmap-lt rest rest-lt

      kept : (not (p % 8 == u) && test_bit (get_or b.table (p / 8) 0) u) ≡ true
      kept =
          sym (test_bit-and (get_or b.table (p / 8) 0) (p % 8) u entry-lt (omega arith) u-lt)
          ∙ unmap-test_bit rest rest-lt ne

      entry_ne : get_or b.table (p / 8) 0 ≢ 0
      entry_ne =
          ne_zero_of_test_bit (get_or b.table (p / 8) 0) u entry-lt u-lt
            (&&-right (not (p % 8 == u)) _ kept)

  group_bits :
      (z : Bool)
      → (rest == 0) ≡ z
      → (j : ℕ) → j < 8
      → test_bit (if z then bit_and b.group (255 - get_or map_table (p / 8) 0) else b.group) j
        ≡ (if p / 8 == j then not z else test_bit b.group j)
  group_bits true e j hj =
      rw (test_bit-and b.group (p / 8) j v.group-lt (omega arith) hj)
        (not_and_if (p / 8 == j) (test_bit b.group j))
  group_bits false e j hj = elim (Bool-cases (p / 8 == j)) [
    | inl c ↦ rw (c, ← eq_of_== _ _ c) (group_of_rest (ne_of_== _ _ e))
    | inr c ↦ rw c refl
  ]

  group_bound :
      (z : Bool) → (if z then bit_and b.group (255 - get_or map_table (p / 8) 0) else b.group) < 256
  group_bound true = and-lt b.group (p / 8) v.group-lt (omega arith)
  group_bound false = v.group-lt

  -- `_os_unset_ready` of a priority below 64 keeps a valid bitmap valid.
  pub unset_ready-IsValid : IsValid (unset_ready p b)
  unfolding unset_ready
  unset_ready-IsValid =
      rw (seven p hp, eighth p hp)
        (write-IsValid b v (p / 8) rest _ (omega arith) rest-lt (group_bound (rest == 0))
          (group_bits (rest == 0) refl))

  -- On a valid bitmap `_os_unset_ready` of a priority below 64 removes that priority from the set,
  -- and no other.
  pub is_ready-unset_ready :
      (q : ℕ) → q < 64 → is_ready (unset_ready p b) q ≡ (not (p == q) && is_ready b q)
  unfolding unset_ready is_ready
  is_ready-unset_ready q hq =
      rw (seven p hp, eighth p hp, split_== p q, read_entry _ q)
        (elim (Bool-cases (p / 8 == q / 8)) [
          | inl e ↦
              rw (e, ← eq_of_== _ _ e)
                (test_bit-and _ (p % 8) (q % 8) entry-lt (omega arith) (omega arith))
          | inr ne ↦ rw ne refl
        ])

test_bit-zero : (j : ℕ) → j < 8 → test_bit 0 j ≡ false
test_bit-zero j hj = elim (Bool-cases (test_bit 0 j)) [
  | inl on ↦ absurd (ne_zero_of_test_bit 0 j (omega arith) hj on refl)
  | inr off ↦ off
]

-- `_os_init_scheduler` makes a valid bitmap.
pub init_bitmap-IsValid : IsValid init_bitmap
unfolding init_bitmap
init_bitmap-IsValid = record {
  group-lt = omega arith;
  size = refl;
  entries = λ y hy. rw (get_or-replicate {A = ℕ} 8 y 0) (omega arith);
  linked = λ y hy. rw (get_or-replicate {A = ℕ} 8 y 0) (test_bit-zero y hy);
}

-- `_os_init_scheduler` leaves no priority ready.
pub init_bitmap-empty : (p : ℕ) → p < 64 → is_ready init_bitmap p ≡ false
unfolding init_bitmap is_ready
init_bitmap-empty p hp =
    rw (get_or-replicate {A = ℕ} 8 (p / 8) 0) (test_bit-zero (p % 8) (omega arith))
