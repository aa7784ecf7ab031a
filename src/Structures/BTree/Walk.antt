-- ===== src/Structures/BTree/Walk.antt =====
-- for_all_nodes and find_nodes_at_level of data-structure/04-btree/include/btree.hpp.
use snu_projects.Base.{
  ℕ, zero, suc, ◌+◌, ◌≤◌, ◌≡◌, refl, ap, ◌∙◌, List, [], ◌∷◌, ◌++◌, arith, ltb, false, length,
  length-append,
}
use snu_projects.Structures.BTree.{
  internal, Node, for_all, rest_from, keys_from, count, for_all_nodes, nodes_from,
}
use snu_projects.Structures.BTree.Shape.{IsTree, leaves, inner, below}

-- The keys of a list of nodes, counted; and the leaves among them, each with its keys.
unfoldable pub sum_counts : List Node → ℕ
unfolding count
sum_counts [] = 0
sum_counts (p ∷ ps) = count p + sum_counts ps

sum_counts-append : (ps qs : List Node) → sum_counts (ps ++ qs) ≡ sum_counts ps + sum_counts qs
unfolding sum_counts
sum_counts-append [] qs = omega arith
sum_counts-append (p ∷ ps) qs = ground (arith, sum_counts-append ps qs)

length-keys_from : (i n : ℕ) (keys : ℕ → ℕ) → length (keys_from i n keys) ≡ n
unfolding keys_from
length-keys_from i zero keys = refl
length-keys_from i (suc n) keys = ap suc (length-keys_from (suc i) n keys)

length-rest_from :
    (i m : ℕ) (k : ℕ → ℕ) (s : ℕ → List ℕ) (f : ℕ → List Node)
    → ((j : ℕ) → j ≤ i + m → sum_counts (f j) ≡ length (s j))
    → m + sum_counts (nodes_from i (suc m) f) ≡ length (rest_from i m k s)
unfolding rest_from nodes_from sum_counts
length-rest_from i zero k s f each =
    let here = each i (omega arith) in let split = sum_counts-append (f i) [] in omega arith
length-rest_from i (suc m) k s f each =
    let here = each i (omega arith) in
    let split = sum_counts-append (f i) (nodes_from (suc i) (suc m) f) in
    let joined = length-append (s i) (k i ∷ rest_from (suc i) m k s) in
    let later = length-rest_from (suc i) m k s f (λ j le. each j (omega arith)) in omega arith

-- On a B-tree, the counts n of the nodes that for_all_nodes visits add up to the number of keys that
-- for_all visits.
pub for_all_nodes-sum_counts :
    (P : ℕ → Type 0) (B h : ℕ) (p : Node)
    → IsTree P B h p
    → sum_counts (for_all_nodes p) ≡ length (for_all p)
unfolding for_all_nodes sum_counts count for_all below
for_all_nodes-sum_counts P B h p (leaves n keys edges le stale) =
    let counted = length-keys_from 0 n keys in omega arith
for_all_nodes-sum_counts P B h p (inner h' n keys edges pos le trees filled) = rw not_empty (
    ap (λ x. n + sum_counts (nodes_from 0 x (λ j. for_all_nodes (edges j)))) one_more
    ∙ length-rest_from 0 n keys (below internal edges) (λ j. for_all_nodes (edges j))
        (λ j le. for_all_nodes-sum_counts P B h' (edges j) (trees j (omega arith))))
  where
    not_empty : ltb n 1 ≡ false
    not_empty = ground arith

    one_more : n + 1 ≡ suc n
    one_more = omega arith
