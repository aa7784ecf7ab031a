-- ===== src/Structures/BTree/Order.antt =====
-- The order of for_all in a node of the B-tree in data-structure/04-btree/include/btree.hpp, cut at
-- an index.
use snu_projects.Base.{
  ℕ, zero, suc, ◌+◌, ◌≤◌, ◌<◌, ◌≡◌, refl, sym, ap, ap₂, ◌∙◌, List, [], ◌∷◌, ◌++◌, arith,
}
use mathlib.Core.List.{append-nil, append_assoc}
use snu_projects.Structures.BTree.{keys_from, rest_from}

-- The part before an index: each subtree with the key after it.
unfoldable pub span : ℕ → ℕ → (ℕ → ℕ) → (ℕ → List ℕ) → List ℕ
span i zero k s = []
span i (suc m) k s = s i ++ (k i ∷ span (suc i) m k s)

-- The part after the subtree at an index.
unfoldable pub tail_from : ℕ → ℕ → (ℕ → ℕ) → (ℕ → List ℕ) → List ℕ
unfolding rest_from
tail_from i zero k s = []
tail_from i (suc m) k s = k i ∷ rest_from (suc i) m k s

pub rest_from-tail :
    (i m : ℕ) (k : ℕ → ℕ) (s : ℕ → List ℕ) → rest_from i m k s ≡ s i ++ tail_from i m k s
unfolding rest_from tail_from
rest_from-tail i zero k s = sym (append-nil (s i))
rest_from-tail i (suc m) k s = refl

-- A leaf is a node with empty subtrees.
pub rest_from-leaf : (i m : ℕ) (k : ℕ → ℕ) → rest_from i m k (λ j. []) ≡ keys_from i m k
unfolding rest_from keys_from
rest_from-leaf i zero k = refl
rest_from-leaf i (suc m) k = ap (λ l. k i ∷ l) (rest_from-leaf (suc i) m k)

pub rest_from-span :
    (i a j n m : ℕ) (k : ℕ → ℕ) (s : ℕ → List ℕ)
    → n ≡ a + m
    → j ≡ i + a
    → rest_from i n k s ≡ span i a k s ++ rest_from j m k s
unfolding rest_from span
rest_from-span i zero j n m k s hn hj =
    ap₂ (λ x y. rest_from x y k s) {x = i} (omega arith) (omega arith)
rest_from-span i (suc a) j n m k s hn hj =
    ap (λ x. rest_from i x k s) {y = suc (a + m)} (omega arith)
    ∙ ap (λ l. s i ++ (k i ∷ l)) (rest_from-span (suc i) a j (a + m) m k s refl (omega arith))
    ∙ sym (append_assoc (s i) (k i ∷ span (suc i) a k s) (rest_from j m k s))

-- Two nodes that agree on a range, the second moved up by `d`.
pub rest_from_shift :
    (d i i' m : ℕ) (k k' : ℕ → ℕ) (s s' : ℕ → List ℕ)
    → i' ≡ d + i
    → ((j j' : ℕ) → j' ≡ d + j → i ≤ j → j < i + m → k j ≡ k' j')
    → ((j j' : ℕ) → j' ≡ d + j → i ≤ j → j ≤ i + m → s j ≡ s' j')
    → rest_from i m k s ≡ rest_from i' m k' s'
unfolding rest_from
rest_from_shift d i i' zero k k' s s' e hk hs = hs i i' e (omega arith) (omega arith)
rest_from_shift d i i' (suc m) k k' s s' e hk hs =
    ap (λ l. l ++ (k i ∷ rest_from (suc i) m k s)) (hs i i' e (omega arith) (omega arith))
    ∙ ap (λ x. s' i' ++ (x ∷ rest_from (suc i) m k s)) (hk i i' e (omega arith) (omega arith))
    ∙ ap (λ l. s' i' ++ (k' i' ∷ l))
        (rest_from_shift d (suc i) (suc i') m k k' s s' (omega arith)
          (λ j j' e ge lt. hk j j' e (omega arith) (omega arith))
          (λ j j' e ge lt. hs j j' e (omega arith) (omega arith)))

pub span-cong :
    (i m : ℕ) (k k' : ℕ → ℕ) (s s' : ℕ → List ℕ)
    → ((j : ℕ) → i ≤ j → j < i + m → k j ≡ k' j)
    → ((j : ℕ) → i ≤ j → j < i + m → s j ≡ s' j)
    → span i m k s ≡ span i m k' s'
unfolding span
span-cong i zero k k' s s' hk hs = refl
span-cong i (suc m) k k' s s' hk hs =
    ap (λ l. l ++ (k i ∷ span (suc i) m k s)) (hs i (omega arith) (omega arith))
    ∙ ap (λ x. s' i ++ (x ∷ span (suc i) m k s)) (hk i (omega arith) (omega arith))
    ∙ ap (λ l. s' i ++ (k' i ∷ l))
        (span-cong (suc i) m k k' s s' (λ j ge lt. hk j (omega arith) (omega arith))
          (λ j ge lt. hs j (omega arith) (omega arith)))
