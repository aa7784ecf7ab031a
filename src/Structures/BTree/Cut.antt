-- ===== src/Structures/BTree/Cut.antt =====
-- The keys of a node of the B-tree in data-structure/04-btree/include/btree.hpp around one of its
-- edges: what a change of the subtree there does to them, and a key that opens the arrays there.
use snu_projects.Base.{
  ℕ, zero, suc, ◌+◌, ◌≤◌, ◌<◌, ◌≡◌, refl, sym, ap, ap₂, ◌∙◌, List, ◌∷◌, ◌++◌, arith,
}
use mathlib.Core.List.{append_assoc}
use snu_projects.Structures.BTree.{rest_from}
use snu_projects.Structures.BTree.Order.{
  span, tail_from, rest_from-tail, rest_from-span, rest_from_shift, span-cong,
}

pub tail_from_shift :
    (d i i' m : ℕ) (k k' : ℕ → ℕ) (s s' : ℕ → List ℕ)
    → i' ≡ d + i
    → ((j j' : ℕ) → j' ≡ d + j → i ≤ j → j < i + m → k j ≡ k' j')
    → ((j j' : ℕ) → j' ≡ d + j → i < j → j ≤ i + m → s j ≡ s' j')
    → tail_from i m k s ≡ tail_from i' m k' s'
unfolding tail_from
tail_from_shift d i i' zero k k' s s' e hk hs = refl
tail_from_shift d i i' (suc m) k k' s s' e hk hs =
    ap (λ x. x ∷ rest_from (suc i) m k s) (hk i i' e (omega arith) (omega arith))
    ∙ ap (λ l. k' i' ∷ l)
        (rest_from_shift d (suc i) (suc i') m k k' s s' (omega arith)
          (λ j j' e ge lt. hk j j' e (omega arith) (omega arith))
          (λ j j' e ge lt. hs j j' e (omega arith) (omega arith)))

-- The keys around the edge at `idx`.
unfoldable pub around : ℕ → ℕ → (ℕ → ℕ) → (ℕ → List ℕ) → List ℕ → List ℕ
around idx m k s below = span 0 idx k s ++ (below ++ tail_from idx m k s)

module _ (idx m n : ℕ) (sum : n ≡ idx + m) (k : ℕ → ℕ) (s : ℕ → List ℕ) where
  pub rest_from-around : rest_from 0 n k s ≡ around idx m k s (s idx)
  unfolding around
  rest_from-around =
      rest_from-span 0 idx idx n m k s sum (omega arith)
      ∙ ap (λ l. span 0 idx k s ++ l) (rest_from-tail idx m k s)

  -- Another subtree there, and the others as they were.
  pub rest_from_changed :
      (s' : ℕ → List ℕ)
      → ((j : ℕ) → j < idx → s' j ≡ s j)
      → ((j : ℕ) → idx < j → j ≤ n → s' j ≡ s j)
      → rest_from 0 n k s' ≡ around idx m k s (s' idx)
  unfolding around
  rest_from_changed s' before after =
      rest_from-span 0 idx idx n m k s' sum (omega arith)
      ∙ ap (λ l. span 0 idx k s' ++ l) (rest_from-tail idx m k s')
      ∙ ap₂ (λ p r. p ++ (s' idx ++ r))
          (span-cong 0 idx k k s' s (λ j ge lt. refl) (λ j ge lt. before j (omega arith)))
          (tail_from_shift 0 idx idx m k k s' s (omega arith) (λ j j' e ge lt. ap k (omega arith))
            (λ j j' e gt le. after j gt (omega arith) ∙ ap s (omega arith)))

  -- The arrays one place longer, with a key at `idx` between two subtrees.
  pub rest_from_opened :
      (k' : ℕ → ℕ) (s' : ℕ → List ℕ)
      → ((j : ℕ) → j < idx → k' j ≡ k j)
      → ((j : ℕ) → idx ≤ j → j < n → k' (suc j) ≡ k j)
      → ((j : ℕ) → j < idx → s' j ≡ s j)
      → ((j : ℕ) → idx < j → j ≤ n → s' (suc j) ≡ s j)
      → rest_from 0 (suc n) k' s' ≡ around idx m k s (s' idx ++ (k' idx ∷ s' (suc idx)))
  unfolding around tail_from rest_from
  rest_from_opened k' s' k_before k_after s_before s_after =
      rest_from-span 0 idx idx (suc n) (suc m) k' s' (omega arith) (omega arith)
      ∙ ap (λ l. span 0 idx k' s' ++ (s' idx ++ (k' idx ∷ l))) (rest_from-tail (suc idx) m k' s')
      ∙ ap₂ (λ p r. p ++ (s' idx ++ (k' idx ∷ (s' (suc idx) ++ r))))
          (span-cong 0 idx k' k s' s (λ j ge lt. k_before j (omega arith))
            (λ j ge lt. s_before j (omega arith)))
          (sym (
            tail_from_shift 1 idx (suc idx) m k k' s s' (omega arith)
              (λ j j' e ge lt. sym (k_after j ge (omega arith)) ∙ ap k' (omega arith))
              (λ j j' e gt le. sym (s_after j gt (omega arith)) ∙ ap s' (omega arith))))
      ∙ ap (λ l. span 0 idx k s ++ l)
          (sym (append_assoc (s' idx) (k' idx ∷ s' (suc idx)) (tail_from idx m k s)))
