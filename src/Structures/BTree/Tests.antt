-- ===== src/Structures/BTree/Tests.antt =====
-- Runs of the B-tree, and instances of its theorems, with two to four edges in a node (B = 2).
use snu_projects.Base.{
  ℕ, zero, suc, ◌-◌, ◌≤◌, ◌≡◌, ◌≢◌, refl, subst, true, false, Bool, List, [], ◌∷◌, Option, none,
  some, arith, ◌==◌, if◌then◌else◌, length,
}
use snu_projects.Structures.Keys.{insert_key, remove_key, has_key}
use snu_projects.Structures.BTree.{
  leaf, internal, Node, null, node, no_edges, for_all, keys_from, rest_from, count, get_index,
  lower_bound, search, for_all_nodes,
}
use snu_projects.Structures.BTree.Insert.{insert, split_full}
use snu_projects.Structures.BTree.Remove.{remove, refill}
use snu_projects.Structures.BTree.Shape.{IsTree, leaves, inner, below}
use snu_projects.Structures.BTree.Remove.Siblings.{Any}
use snu_projects.Structures.BTree.Insert.SplitChild.{IsSplit, split_full_lem}
use snu_projects.Structures.BTree.Insert.Root.{IsGrown, insert_lem}
use snu_projects.Structures.BTree.Remove.Refill.{IsRefilled}
use snu_projects.Structures.BTree.Remove.Merge.{refill_lem}
use snu_projects.Structures.BTree.Remove.Root.{remove_lem}
use snu_projects.Structures.BTree.Search.{Answers, search_lem}
use snu_projects.Structures.BTree.Walk.{sum_counts, for_all_nodes-sum_counts}

abbrev slots : List ℕ → ℕ → ℕ
slots [] i = 0
slots (x ∷ xs) i = if i == 0 then x else slots xs (i - 1)

abbrev full_leaf : Node
full_leaf = node leaf 3 (slots (5 ∷ 10 ∷ 15 ∷ [])) no_edges

abbrev two_edges : Node → ℕ → Node
two_edges first i =
    if i == 0 then first else if i == 1 then node leaf 1 (slots (25 ∷ [])) no_edges else null

-- A node with one key and two leaves below it.
abbrev over : Node → Node
over first = node internal 1 (slots (20 ∷ [])) (two_edges first)

abbrev thin_leaf : Node
thin_leaf = node leaf 1 (slots (5 ∷ [])) no_edges

-- The keys after an insertion or a removal.
abbrev keys_after : Option (Node × Bool) → List ℕ
keys_after none = []
keys_after (some (p, done)) = for_all p

split_root : keys_after (insert 2 full_leaf 12) ≡ 5 ∷ 10 ∷ 12 ∷ 15 ∷ []
unfolding insert for_all
split_root = refl

merged_root : keys_after (remove 2 (over thin_leaf) 20) ≡ 5 ∷ 25 ∷ []
unfolding remove for_all
merged_root = refl

-- A leaf that removals have emptied refuses T().
abbrev answer : Option (Node × Bool) → Bool
answer none = false
answer (some (p, done)) = done

refused : answer (insert 2 (node leaf 0 (slots []) no_edges) 0) ≡ false
unfolding insert
refused = refl

-- A key of an internal node is inserted again.
twice : keys_after (insert 2 (over thin_leaf) 20) ≡ 5 ∷ 20 ∷ 20 ∷ 25 ∷ []
unfolding insert for_all
twice = refl

beneath :
    (Q : Node → Type 0) (first : Node)
    → Q first
    → Q (node leaf 1 (slots (25 ∷ [])) no_edges)
    → (i : ℕ) → i ≤ 1
    → Q (two_edges first i)
beneath Q first of_first of_last zero le = of_first
beneath Q first of_first of_last (suc zero) le = of_last
beneath Q first of_first of_last (suc (suc i)) le = absurd (omega arith)

-- A leaf with one key, whose other slots hold T().
one_key : (P : ℕ → Type 0) (x : ℕ) → P 0 → IsTree P 2 0 (node leaf 1 (slots (x ∷ [])) no_edges)
one_key P x at_zero =
    leaves 1 (slots (x ∷ [])) no_edges (omega arith)
      (λ i ge lt. subst P {x = 0} (ground arith) at_zero)

thin_tree : (P : ℕ → Type 0) → P 0 → IsTree P 2 1 (over thin_leaf)
unfolding count
thin_tree P at_zero =
    inner 0 1 (slots (20 ∷ [])) (two_edges thin_leaf) (omega arith) (omega arith)
      (beneath (IsTree P 2 0) thin_leaf (one_key P 5 at_zero) (one_key P 25 at_zero))
      (beneath (λ c. 1 ≤ count c) thin_leaf (omega arith) (omega arith))

insert_lem_example :
    (root : Node) × (insert 2 full_leaf 12 ≡ some (root, true))
    × IsGrown 2 root
    × (for_all root ≡ insert_key 12 (for_all full_leaf))
unfolding for_all keys_from
insert_lem_example =
    insert_lem 2 full_leaf 12 (omega arith)
      (
        (omega arith),
        (
          0,
          leaves 3 (slots (5 ∷ 10 ∷ 15 ∷ [])) no_edges (omega arith)
              (λ i ge lt. absurd (omega arith)),
        ),
      )
      refl (omega arith)

remove_lem_example :
    (root : Node) × (h : ℕ) × (remove 2 (over thin_leaf) 20 ≡ some (root, true))
    × IsTree Any 2 h root
    × (for_all root ≡ remove_key 20 (for_all (over thin_leaf)))
    × (h ≤ 1)
    × (1 ≤ suc h)
unfolding for_all keys_from rest_from
remove_lem_example =
    remove_lem 2 1 (over thin_leaf) 20 (omega arith) (thin_tree Any tt) (omega arith) refl

split_full_lem_example :
    (p : Node) × (split_full 2 internal 1 (slots (20 ∷ [])) (two_edges full_leaf) 0 full_leaf
      ≡ some p)
    × IsSplit Any 2 0 1 (rest_from 0 1 (slots (20 ∷ [])) (below internal (two_edges full_leaf))) p
unfolding count
split_full_lem_example =
    split_full_lem Any tt 2 (omega arith) 0 1 (slots (20 ∷ [])) (two_edges full_leaf) 0 full_leaf
      refl (omega arith) (omega arith) refl
      (beneath (IsTree Any 2 0) full_leaf
        (leaves 3 (slots (5 ∷ 10 ∷ 15 ∷ [])) no_edges (omega arith) (λ i ge lt. tt))
        (one_key Any 25 tt))
      (beneath (λ c. 1 ≤ count c) full_leaf (omega arith) (omega arith)) (λ x h. tt)

refill_lem_example :
    (p : Node) × (refill internal 1
        (slots (20 ∷ []))
        (two_edges thin_leaf)
        2
        (get_index 1 (slots (20 ∷ [])) 5)
      ≡ some p)
    × IsRefilled 2 0 5 (rest_from 0 1 (slots (20 ∷ [])) (below internal (two_edges thin_leaf))) 1 p
unfolding rest_from below for_all keys_from get_index lower_bound count
refill_lem_example =
    refill_lem 2 0 1 (omega arith) (slots (20 ∷ [])) (two_edges thin_leaf) (omega arith)
      (beneath (IsTree Any 2 0) thin_leaf (one_key Any 5 tt) (one_key Any 25 tt))
      (beneath (λ c. 1 ≤ count c) thin_leaf (omega arith) (omega arith)) (omega arith) 5
      (omega arith) (omega arith)

search_lem_example :
    Answers 25 (search 2 (over thin_leaf) 25) (has_key 25 (for_all (over thin_leaf)))
unfolding for_all keys_from rest_from
search_lem_example =
    search_lem 2 25 1 (over thin_leaf) (thin_tree (λ x. x ≢ 25) (omega arith)) (omega arith)

for_all_nodes-sum_counts_example :
    sum_counts (for_all_nodes (over thin_leaf)) ≡ length (for_all (over thin_leaf))
for_all_nodes-sum_counts_example =
    for_all_nodes-sum_counts Any 2 1 (over thin_leaf) (thin_tree Any tt)
