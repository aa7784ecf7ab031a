-- ===== src/Structures/Deque/Array/Grow.antt =====
-- `resize` keeps the elements: the run behind `front` in the old array is the one in the new array.
use snu_projects.Base.{
  ℕ, zero, suc, ◌+◌, ◌-◌, ◌*◌, ◌≤◌, ◌<◌, ◌≡◌, refl, sym, ap, ap₂, ◌∙◌, List, [], ◌∷◌, arith, ◌==◌,
  set, get_or, length, get_or-set_self, get_or-set_ne, length-set, replicate, Bool-cases, inl, inr,
  eq_of_==, ne_of_==, ltb, int_limit,
}
use snu_projects.Structures.Deque.Array.{copy}
use snu_projects.Structures.Deque.Array.Slice.{slice, next, next_inside, next_wrap}

pub length-copy :
    (arr : List ℕ) (offset from n : ℕ) (to : List ℕ)
    → length (copy arr offset from n to) ≡ length to
unfolding copy
length-copy arr offset from zero to = refl
length-copy arr offset from (suc n) to = elim (Bool-cases (ltb from int_limit)) [
  | inl e ↦ rw e (
      length-copy arr offset (suc from) n (set to (from + offset) (get_or arr from 0))
      ∙ length-set to (from + offset) (get_or arr from 0))
  | inr e ↦ rw e refl
]

-- A place that the loop does not write.
copy_outside :
    (arr : List ℕ) (offset from n : ℕ) (to : List ℕ) (j : ℕ)
    → (from + offset ≤ j → from + n + offset ≤ j)
    → get_or (copy arr offset from n to) j 0 ≡ get_or to j 0
unfolding copy
copy_outside arr offset from zero to j out = refl
copy_outside arr offset from (suc n) to j out = elim (Bool-cases (ltb from int_limit)) [
  | inl e ↦ rw e (
      copy_outside arr offset (suc from) n (set to (from + offset) (get_or arr from 0)) j
        (λ le. omega arith)
      ∙ get_or-set_ne to (from + offset) j (get_or arr from 0) 0 (λ e. omega arith))
  | inr e ↦ rw e refl
]

copy_step :
    (arr : List ℕ) (offset from n : ℕ) (to : List ℕ)
    → from < int_limit
    → copy arr offset from (suc n) to
      ≡ copy arr offset (suc from) n (set to (from + offset) (get_or arr from 0))
unfolding copy
copy_step arr offset from n to small = ground arith

copy_inside :
    (arr : List ℕ) (offset from n : ℕ) (to : List ℕ) (i : ℕ)
    → from ≤ i
    → i < from + n
    → from + n + offset ≤ length to
    → from + n ≤ int_limit
    → get_or (copy arr offset from n to) (i + offset) 0 ≡ get_or arr i 0
unfolding copy
copy_inside arr offset from zero to i le lt room small = absurd (omega arith)
copy_inside arr offset from (suc n) to i le lt room small =
    ap (λ l. get_or l (i + offset) 0) (copy_step arr offset from n to (omega arith))
    ∙ elim (Bool-cases (i == from)) [
      | inl e ↦
          let same = eq_of_== i from e in
          copy_outside arr offset (suc from) n rest (i + offset) (λ after. absurd (omega arith))
          ∙ ap (λ j. get_or rest (j + offset) 0) same
          ∙ get_or-set_self to (from + offset) (get_or arr from 0) 0 (omega arith)
          ∙ ap (λ j. get_or arr j 0) (sym same)
      | inr e ↦
          let other = ne_of_== i from e in
          copy_inside arr offset (suc from) n rest i (omega arith) (omega arith)
            (omega (arith, length-set to (from + offset) (get_or arr from 0))) (omega arith)
    ]
  where
    rest : List ℕ
    rest = set to (from + offset) (get_or arr from 0)

pub length-replicate : (n a : ℕ) → length (replicate n a) ≡ n
length-replicate zero a = refl
length-replicate (suc n) a = ap suc (length-replicate n a)

abbrev rest_of : List ℕ → List ℕ
rest_of [] = []
rest_of (x ∷ xs) = xs

module _ (arr : List ℕ) (cap front : ℕ) (below : front < cap) (counted : cap ≤ int_limit) where
  -- The new array of `resize`.
  abbrev pub grown : List ℕ
  grown = copy arr cap front (cap - front) (copy arr 0 0 front (replicate (2 * cap) 0))

  pub length-grown : length grown ≡ 2 * cap
  length-grown =
      length-copy arr cap front (cap - front) (copy arr 0 0 front (replicate (2 * cap) 0))
      ∙ length-copy arr 0 0 front (replicate (2 * cap) 0)
      ∙ length-replicate (2 * cap) 0

  grown_low : (i : ℕ) → i < front → get_or grown i 0 ≡ get_or arr i 0
  grown_low i lt =
      copy_outside arr cap front (cap - front) (copy arr 0 0 front (replicate (2 * cap) 0)) i
        (λ le. absurd (omega arith))
      ∙ ap (λ j. get_or (copy arr 0 0 front (replicate (2 * cap) 0)) j 0) plus_zero
      ∙ copy_inside arr 0 0 front (replicate (2 * cap) 0) i (omega arith) (omega arith)
          (omega (arith, length-replicate (2 * cap) 0)) (omega arith)
    where
      plus_zero : i ≡ i + 0
      plus_zero = omega arith

  grown_high : (i : ℕ) → front ≤ i → i < cap → get_or grown (i + cap) 0 ≡ get_or arr i 0
  grown_high i le lt =
      copy_inside arr cap front (cap - front) (copy arr 0 0 front (replicate (2 * cap) 0)) i le
        (omega arith)
        (omega
          (arith, length-copy arr 0 0 front (replicate (2 * cap) 0), length-replicate (2 * cap) 0))
        (omega arith)

  -- The lower part of the ring has its old places.
  slice_low : (i n : ℕ) → i + n ≤ front → slice grown (cap * 2) i n ≡ slice arr cap i n
  unfolding slice
  slice_low i zero le = refl
  slice_low i (suc n) le = ap₂ ◌∷◌ (grown_low i (omega arith)) (
      ap (λ j. slice grown (cap * 2) j n) (next_inside (cap * 2) i (suc i) refl (omega arith))
      ∙ slice_low (suc i) n (omega arith)
      ∙ ap (λ j. slice arr cap j n) (sym (next_inside cap i (suc i) refl (omega arith))))

  -- The upper part has moved up, and the run goes on in the lower part.
  slice_high :
      (i n : ℕ)
      → front ≤ i
      → i < cap
      → i + n ≤ front + cap
      → slice grown (cap * 2) (i + cap) n ≡ slice arr cap i n
  unfolding slice
  slice_high i zero le lt room = refl
  slice_high i (suc n) le lt room = ap₂ ◌∷◌ (grown_high i le lt) (elim (Bool-cases (suc i == cap)) [
    | inl e ↦
        let last = eq_of_== (suc i) cap e in
        ap (λ j. slice grown (cap * 2) j n) (next_wrap (cap * 2) (i + cap) (omega arith))
        ∙ slice_low 0 n (omega arith)
        ∙ ap (λ j. slice arr cap j n) (sym (next_wrap cap i last))
    | inr e ↦
        let inside = ne_of_== (suc i) cap e in
        ap (λ j. slice grown (cap * 2) j n)
          (next_inside (cap * 2) (i + cap) (suc i + cap) (omega arith) (omega arith))
        ∙ slice_high (suc i) n (omega arith) (omega arith) (omega arith)
        ∙ ap (λ j. slice arr cap j n) (sym (next_inside cap i (suc i) refl (omega arith)))
  ])

  -- The whole run behind `front`, in a full ring.
  pub slice-grown :
      (n : ℕ)
      → suc n ≤ cap
      → slice grown (cap * 2) (next (cap * 2) (front + cap)) n ≡ slice arr cap (next cap front) n
  unfolding slice
  slice-grown n le = ap rest_of (slice_high front (suc n) (omega arith) below (omega arith))
