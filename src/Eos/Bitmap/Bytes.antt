-- ===== src/Eos/Bitmap/Bytes.antt =====
-- Bit facts over all bytes, checked by evaluation, for `_os_map_table` and `_os_unmap_table`.
use snu_projects.Base.{
  ℕ, ◌-◌, ◌%◌, ◌≤◌, ◌<◌, ◌≡◌, ◌≢◌, refl, Bool, true, false, not, ◌&&◌, ◌||◌, bit_and, bit_or, arith,
  ◌==◌, ltb, if◌then◌else◌, get_or, test_bit, all_below, below, eq_of_==, ==_of_ne, lt_of_ltb,
  le_of_ltb,
}
use snu_projects.Eos.Bitmap.{map_table, unmap_table}

abbrev same : Bool → Bool → Bool
same true c = c
same false c = not c

eq_of_same : (b c : Bool) → same b c ≡ true → b ≡ c
eq_of_same b c h = ground arith

abbrev or_test : ℕ → ℕ → ℕ → Bool
or_test b i j =
    same (test_bit (bit_or b (get_or map_table i 0)) j) ((i == j) || test_bit b j)
    && ltb (bit_or b (get_or map_table i 0)) 256

abbrev and_test : ℕ → ℕ → ℕ → Bool
and_test b i j =
    same (test_bit (bit_and b (255 - get_or map_table i 0)) j) (not (i == j) && test_bit b j)
    && ltb (bit_and b (255 - get_or map_table i 0)) 256

abbrev unmap_test : ℕ → ℕ → Bool
unmap_test b j =
    let u = get_or unmap_table b 0 in
    ltb u 8
    && (if b == 0
        then not (test_bit b j) && (u == 0)
        else test_bit b u && (not (ltb j u) || not (test_bit b j)))

or_table : all_below 256 (λ b. all_below 8 (λ i. all_below 8 (or_test b i))) ≡ true
unfolding all_below
or_table = refl

and_table : all_below 256 (λ b. all_below 8 (λ i. all_below 8 (and_test b i))) ≡ true
unfolding all_below
and_table = refl

unmap_table_lem : all_below 256 (λ b. all_below 8 (unmap_test b)) ≡ true
unfolding all_below
unmap_table_lem = refl

seven_table : all_below 256 (λ p. bit_and p 7 == p % 8) ≡ true
unfolding all_below
seven_table = refl

-- A check over all bytes and all pairs of bit positions, used at one place.
check_at :
    (f : ℕ → ℕ → ℕ → Bool) (b i j : ℕ)
    → all_below 256 (λ b. all_below 8 (λ i. all_below 8 (f b i))) ≡ true
    → b < 256
    → i < 8
    → j < 8
    → f b i j ≡ true
check_at f b i j all hb hi hj = below (f b i) j 8 hj (
    below (λ i. all_below 8 (f b i)) i 8 hi
      (below (λ b. all_below 8 (λ i. all_below 8 (f b i))) b 256 hb all))

&&-left : (b c : Bool) → (b && c) ≡ true → b ≡ true
&&-left b c h = ground arith

pub &&-right : (b c : Bool) → (b && c) ≡ true → c ≡ true
&&-right b c h = ground arith

-- Adding bit `i` to a byte changes that bit alone.
pub test_bit-or :
    (b i j : ℕ)
    → b < 256
    → i < 8
    → j < 8
    → test_bit (bit_or b (get_or map_table i 0)) j ≡ ((i == j) || test_bit b j)
test_bit-or b i j hb hi hj = eq_of_same _ _ (&&-left _ _ (check_at or_test b i j or_table hb hi hj))

pub or-lt : (b i : ℕ) → b < 256 → i < 8 → bit_or b (get_or map_table i 0) < 256
or-lt b i hb hi = lt_of_ltb _ _ (&&-right _ _ (check_at or_test b i 0 or_table hb hi (omega arith)))

-- Removing bit `i` from a byte changes that bit alone.
pub test_bit-and :
    (b i j : ℕ)
    → b < 256
    → i < 8
    → j < 8
    → test_bit (bit_and b (255 - get_or map_table i 0)) j ≡ (not (i == j) && test_bit b j)
test_bit-and b i j hb hi hj =
    eq_of_same _ _ (&&-left _ _ (check_at and_test b i j and_table hb hi hj))

pub and-lt : (b i : ℕ) → b < 256 → i < 8 → bit_and b (255 - get_or map_table i 0) < 256
and-lt b i hb hi =
    lt_of_ltb _ _ (&&-right _ _ (check_at and_test b i 0 and_table hb hi (omega arith)))

unmap_at : (b j : ℕ) → b < 256 → j < 8 → unmap_test b j ≡ true
unmap_at b j hb hj =
    below (unmap_test b) j 8 hj (below (λ b. all_below 8 (unmap_test b)) b 256 hb unmap_table_lem)

pub unmap-lt : (b : ℕ) → b < 256 → get_or unmap_table b 0 < 8
unmap-lt b hb = lt_of_ltb _ _ (&&-left _ _ (unmap_at b 0 hb (omega arith)))

unmap_rest :
    (b j : ℕ)
    → b < 256
    → j < 8
    → (if b == 0
        then not (test_bit b j) && (get_or unmap_table b 0 == 0)
        else test_bit b (get_or unmap_table b 0)
          && (not (ltb j (get_or unmap_table b 0)) || not (test_bit b j)))
      ≡ true
unmap_rest b j hb hj = &&-right _ _ (unmap_at b j hb hj)

-- The table gives the lowest bit that is set.
pub unmap-test_bit : (b : ℕ) → b < 256 → b ≢ 0 → test_bit b (get_or unmap_table b 0) ≡ true
unmap-test_bit b hb ne = &&-left _ _ (rw (==_of_ne b 0 ne) at (unmap_rest b 0 hb (omega arith)))

no_bits : (o z : Bool) → (not o && z) ≡ true → o ≡ true → ⊥
no_bits true z h on = cc
no_bits false z h on = cc

not_below : (t l o : Bool) → (t && (not l || not o)) ≡ true → o ≡ true → l ≡ false
not_below t l o h on = ground arith

-- A bit that is set is not zero's.
pub ne_zero_of_test_bit : (b j : ℕ) → b < 256 → j < 8 → test_bit b j ≡ true → b ≢ 0
ne_zero_of_test_bit b j hb hj on e = no_bits _ _ (rw (eq_test b 0 e) at (unmap_rest b j hb hj)) on
  where
    eq_test : (b c : ℕ) → b ≡ c → (b == c) ≡ true
    eq_test b c e = ground arith

pub unmap-le_of_test_bit :
    (b j : ℕ) → b < 256 → j < 8 → test_bit b j ≡ true → get_or unmap_table b 0 ≤ j
unmap-le_of_test_bit b j hb hj on = le_of_ltb _ _ (
    not_below _ _ _ (rw (==_of_ne b 0 (ne_zero_of_test_bit b j hb hj on)) at (unmap_rest b j hb hj))
      on)

pub and_seven : (p : ℕ) → p < 256 → bit_and p 7 ≡ p % 8
and_seven p h = eq_of_== _ _ (below (λ p. bit_and p 7 == p % 8) p 256 h seven_table)
