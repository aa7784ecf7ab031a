-- ===== src/Structures/BTree/Sides.antt =====
-- get_index of data-structure/04-btree/include/btree.hpp on an ascending node: where it points, and
-- on which side of the key the others then lie.
use snu_projects.Base.{
  ℕ, zero, suc, ◌+◌, ◌≤◌, ◌<◌, ◌≡◌, sym, ap, subst, ◌∙◌, List, [], ◌∷◌, ◌++◌, arith, ltb, ◌==◌, inl,
  inr, Bool-cases,
}
use mathlib.Core.List.{append_assoc}
use snu_projects.Structures.Keys.{AllBelow, AllAbove, IsAscending, AllAbove-mono}
use snu_projects.Structures.Keys.Between.{IsAscending-append}
use snu_projects.Structures.BTree.{get_index, lower_bound, rest_from}
use snu_projects.Structures.BTree.Order.{span, tail_from}
use snu_projects.Structures.BTree.Cut.{around}

lower_bound-le : (k : ℕ → ℕ) (i m t : ℕ) → (i ≤ lower_bound k i m t) × (lower_bound k i m t ≤ i + m)
unfolding lower_bound
lower_bound-le k i zero t = (omega arith, omega arith)
lower_bound-le k i (suc m) t = ground (arith, lower_bound-le k (suc i) m t)

lower_bound-below : (k : ℕ → ℕ) (i m t j : ℕ) → i ≤ j → j < lower_bound k i m t → k j < t
unfolding lower_bound
lower_bound-below k i zero t j ge lt = omega arith
lower_bound-below k i (suc m) t j ge lt = elim (Bool-cases (ltb (k i) t)) [
  | inl e ↦ elim (Bool-cases (i == j)) [
    | inl same ↦ subst (λ x. k x < t) {x = i} (ground arith) (ground arith)
    | inr off ↦ lower_bound-below k (suc i) m t j (ground arith) (ground arith)
  ]
  | inr e ↦ ground arith
]

lower_bound-above :
    (k : ℕ → ℕ) (i m t : ℕ) → lower_bound k i m t < i + m → t ≤ k (lower_bound k i m t)
unfolding lower_bound
lower_bound-above k i zero t lt = omega arith
lower_bound-above k i (suc m) t lt = elim (Bool-cases (ltb (k i) t)) [
  | inl e ↦ rw e (lower_bound-above k (suc i) m t (ground arith))
  | inr e ↦ rw e (ground arith)
]

module _ (n : ℕ) (k : ℕ → ℕ) (t : ℕ) where
  pub get_index-le : get_index n k t ≤ n
  unfolding get_index
  get_index-le = ground (arith, lower_bound-le k 0 n t)

  pub get_index-below : (j : ℕ) → j < get_index n k t → k j < t
  unfolding get_index
  get_index-below j lt = ground (arith, lower_bound-below k 0 n t j)

  pub get_index-above : get_index n k t < n → t ≤ k (get_index n k t)
  unfolding get_index
  get_index-above lt = elim (Bool-cases (n == 0)) [
    | inl e ↦ ground arith
    | inr e ↦ rw e (lower_bound-above k 0 n t (ground arith))
  ]

AllBelow-last :
    (t b : ℕ) (xs : List ℕ) → IsAscending (xs ++ (b ∷ [])) → b < t → AllBelow t (xs ++ (b ∷ []))
AllBelow-last t b [] h lt = (lt, tt)
AllBelow-last t b (x ∷ xs) h lt = (below xs h.0, AllBelow-last t b xs h.1 lt)
  where
    below : (ys : List ℕ) → AllAbove x (ys ++ (b ∷ [])) → x < t
    below [] a = omega arith
    below (y ∷ ys) a = below ys a.1

span_snoc :
    (i a j : ℕ) (k : ℕ → ℕ) (s : ℕ → List ℕ)
    → j ≡ i + a
    → span i (suc a) k s ≡ (span i a k s ++ s j) ++ (k j ∷ [])
unfolding span
span_snoc i zero j k s e = ap (λ x. s x ++ (k x ∷ [])) (omega arith)
span_snoc i (suc a) j k s e =
    ap (λ l. s i ++ (k i ∷ l)) (span_snoc (suc i) a j k s (omega arith))
    ∙ ap (λ l. s i ++ (k i ∷ l)) (append_assoc (span (suc i) a k s) (s j) (k j ∷ []))
    ∙ sym (append_assoc (s i) (k i ∷ span (suc i) a k s) (s j ++ (k j ∷ [])))
    ∙ sym (append_assoc (s i ++ (k i ∷ span (suc i) a k s)) (s j) (k j ∷ []))

-- The keys before an edge lie below what is above the last separator there, and those after it above.
pub span-AllBelow :
    (idx t : ℕ) (k : ℕ → ℕ) (s : ℕ → List ℕ)
    → IsAscending (span 0 idx k s)
    → ((j : ℕ) → j < idx → k j < t)
    → AllBelow t (span 0 idx k s)
unfolding span
span-AllBelow zero t k s asc lt = tt
span-AllBelow (suc i) t k s asc lt = subst (AllBelow t) (sym (span_snoc 0 i i k s (omega arith))) (
    AllBelow-last t (k i) (span 0 i k s ++ s i)
      (subst IsAscending (span_snoc 0 i i k s (omega arith)) asc) (lt i (omega arith)))

pub tail_from-AllAbove :
    (idx m t : ℕ) (k : ℕ → ℕ) (s : ℕ → List ℕ)
    → IsAscending (tail_from idx m k s)
    → (0 < m → t < k idx)
    → AllAbove t (tail_from idx m k s)
unfolding tail_from
tail_from-AllAbove idx zero t k s asc lt = tt
tail_from-AllAbove idx (suc m) t k s asc lt =
    (lt (omega arith), AllAbove-mono (k idx) t (rest_from (suc idx) m k s) (ground arith) asc.0)

pub around-IsAscending :
    (idx m : ℕ) (k : ℕ → ℕ) (s : ℕ → List ℕ) (xs : List ℕ)
    → IsAscending (around idx m k s xs)
    → IsAscending (span 0 idx k s) × IsAscending xs × IsAscending (tail_from idx m k s)
unfolding around
around-IsAscending idx m k s xs asc =
    let (front, back) = IsAscending-append (span 0 idx k s) (xs ++ tail_from idx m k s) asc in
    let (here, after) = IsAscending-append xs (tail_from idx m k s) back in (front, here, after)
