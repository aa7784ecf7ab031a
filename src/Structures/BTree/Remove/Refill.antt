-- ===== src/Structures/BTree/Remove/Refill.antt =====
-- The refilling of a child in BTreeNode::remove of data-structure/04-btree/include/btree.hpp: what a
-- node is between the refilling and the removal below it.
use snu_projects.Base.{
  ℕ, zero, suc, ◌+◌, ◌-◌, ◌*◌, ◌≤◌, ◌<◌, ◌≡◌, ap, subst, ◌∙◌, List, [], ◌∷◌, arith, ◌==◌, true, inl,
  inr, Bool-cases,
}
use snu_projects.Structures.Keys.{
  has_key, AllBelow, AllAbove, IsAscending, IsAscending-split, has_key-here,
}
use snu_projects.Structures.Keys.Between.{has_key-part}
use snu_projects.Structures.BTree.{
  NodeType, leaf, internal, Node, null, node, for_all, rest_from, count, edge, get_index,
  lower_bound,
}
use snu_projects.Structures.BTree.Insert.{index_in}
use snu_projects.Structures.BTree.Order.{rest_from-tail, tail_from}
use snu_projects.Structures.BTree.Cut.{rest_from-around}
use snu_projects.Structures.BTree.Separators.{has_key-inside}
use snu_projects.Structures.BTree.Shape.{IsTree, below, IsWalked, for_all-rest}
use snu_projects.Structures.BTree.Insert.Split.{rest_from_cut}
use snu_projects.Structures.BTree.Remove.Siblings.{Any}

-- A node that may be internal and without keys, as the root is after its children are merged.
pub data IsLoose (B : ℕ) : ℕ → Node → Type 0 where
  loose_leaf :
      (n : ℕ) (keys : ℕ → ℕ) (edges : ℕ → Node)
      → n ≤ 2 * B - 1
      → IsLoose B 0 (node leaf n keys edges)
  loose_inner :
      (h n : ℕ) (keys : ℕ → ℕ) (edges : ℕ → Node)
      → n ≤ 2 * B - 1
      → ((i : ℕ) → i ≤ n → IsTree Any B h (edges i))
      → ((i : ℕ) → i ≤ n → B - 1 ≤ count (edges i))
      → IsLoose B (suc h) (node internal n keys edges)

-- Its keys in order.
unfoldable pub inorder : Node → List ℕ
unfolding below
inorder null = []
inorder (node type n keys edges) = rest_from 0 n keys (below type edges)

-- What a refilling makes of a node with `n` keys: the child to go on with has a key to spare.
abbrev pub IsRefilled : ℕ → ℕ → ℕ → List ℕ → ℕ → Node → Type 0
IsRefilled B h t all n p =
    IsLoose B (suc h) p
    × (inorder p ≡ all)
    × (n ≤ suc (count p))
    × (B ≤ count (edge p (index_in p t)))

lower_bound_unique :
    (k : ℕ → ℕ) (i m t x : ℕ)
    → i ≤ x
    → x ≤ i + m
    → ((j : ℕ) → i ≤ j → j < x → k j < t)
    → (x < i + m → t ≤ k x)
    → lower_bound k i m t ≡ x
unfolding lower_bound
lower_bound_unique k i zero t x ge le under over = omega arith
lower_bound_unique k i (suc m) t x ge le under over = elim (Bool-cases (i == x)) [
  | inl e ↦
      let here = over (ground arith) in
      let same = ap k {x = i} {y = x} (ground arith) in ground arith
  | inr ne ↦
      let step = under i (omega arith) (ground arith) in
      let later =
        lower_bound_unique k (suc i) m t x (ground arith) (omega arith)
          (λ j ge lt. under j (omega arith) lt) (λ lt. over (omega arith)) in
      ground arith
]

pub get_index_unique :
    (n : ℕ) (k : ℕ → ℕ) (t x : ℕ)
    → x ≤ n
    → ((j : ℕ) → j < x → k j < t)
    → (x < n → t ≤ k x)
    → get_index n k t ≡ x
unfolding get_index
get_index_unique n k t x le under over = elim (Bool-cases (n == 0)) [
  | inl e ↦ ground arith
  | inr e ↦ rw e (
      lower_bound_unique k 0 n t x (omega arith) (omega arith) (λ j ge lt. under j lt)
        (λ lt. over (omega arith)))
]

lt_of_has_key-below : (b x : ℕ) (xs : List ℕ) → AllBelow b xs → has_key x xs ≡ true → x < b
lt_of_has_key-below b x [] a h = ground arith
lt_of_has_key-below b x (y ∷ xs) a h = ground (arith, lt_of_has_key-below b x xs)

lt_of_has_key-above : (b x : ℕ) (xs : List ℕ) → AllAbove b xs → has_key x xs ≡ true → b < x
lt_of_has_key-above b x [] a h = ground arith
lt_of_has_key-above b x (y ∷ xs) a h = ground (arith, lt_of_has_key-above b x xs)

-- The keys of the subtrees on both sides of a separator.
module _ (n i : ℕ) (k : ℕ → ℕ) (s : ℕ → List ℕ) (lt : i < n)
    (asc : IsAscending (rest_from 0 n k s)) where
  parts : AllBelow (k i) (rest_from 0 i k s) × AllAbove (k i) (rest_from (suc i) (n - suc i) k s)
  parts =
      let (front, low, high, back) =
        IsAscending-split (rest_from 0 i k s) (k i) (rest_from (suc i) (n - suc i) k s)
          (subst IsAscending (rest_from_cut i (n - suc i) n k s (omega arith)) asc) in
      (low, high)

  pub separator-above : (x : ℕ) → has_key x (s i) ≡ true → x < k i
  separator-above x h =
      lt_of_has_key-below (k i) x (rest_from 0 i k s) parts.0 (
        ap (has_key x) (rest_from-around i 0 i (omega arith) k s)
        ∙ has_key-inside i 0 k s x (s i) h)

  pub separator-below : (x : ℕ) → has_key x (s (suc i)) ≡ true → k i < x
  separator-below x h = lt_of_has_key-above (k i) x (rest_from (suc i) (n - suc i) k s) parts.1 (
      ap (has_key x) (rest_from-tail (suc i) (n - suc i) k s)
      ∙ has_key-part x [] (s (suc i)) (tail_from (suc i) (n - suc i) k s) h)

-- A node holds its keys.
pub has_key-key :
    (type : NodeType) (n : ℕ) (keys : ℕ → ℕ) (edges : ℕ → Node) (j : ℕ)
    → j < n
    → IsWalked type n
    → has_key (keys j) (for_all (node type n keys edges)) ≡ true
has_key-key type n keys edges j lt walked =
    ap (has_key (keys j)) (
      for_all-rest type n keys edges walked
      ∙ rest_from_cut j (n - suc j) n keys (below type edges) (omega arith))
    ∙ has_key-here (keys j) (rest_from 0 j keys (below type edges))
        (rest_from (suc j) (n - suc j) keys (below type edges))
