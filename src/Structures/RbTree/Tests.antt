-- ===== src/Structures/RbTree/Tests.antt =====
-- Runs of the red-black tree, and instances of its theorems.
use snu_projects.Base.{ℕ, leb, ◌≡◌, refl, [], ◌∷◌, ◌≤◌, ◌^◌, ◌*◌, suc, none, some, map, arith}
use snu_projects.Structures.Keys.{insert_key, remove_key, has_key, IsAscending}
use snu_projects.Structures.RbTree.{red, black, Tree, leaf, node, insert, contains}
use snu_projects.Structures.RbTree.Keys.{keys, contains-has_key}
use snu_projects.Structures.RbTree.Invariant.{IsBalanced, IsLeaning}
use snu_projects.Structures.RbTree.Insert.{Holds, insert-IsBalanced}
use snu_projects.Structures.RbTree.Remove.{size, remove, remove_least, remove_greatest, key_of}
use snu_projects.Structures.RbTree.Remove.Root.{remove-IsBalanced, remove_least-IsBalanced}
use snu_projects.Structures.RbTree.Walk.{
  get_max_depth, get_nodes_at_level, collect_all_leaves, collect_leaves,
}
use snu_projects.Structures.RbTree.Walk.Depth.{is_empty, get_max_depth_lem}

abbrev tree : Tree
tree =
    node black (node red (node black leaf 1 leaf) 2 (node black leaf 3 leaf)) 4
      (node black (node red leaf 5 leaf) 6 leaf)

tree-IsBalanced : IsBalanced 2 tree
tree-IsBalanced = ((((refl, refl)), ((refl, refl))), ((refl, refl), refl))

tree-IsLeaning : IsLeaning tree
tree-IsLeaning =
    (refl, (refl, refl, (refl, tt, tt), (refl, tt, tt)), (refl, (refl, refl, tt, tt), tt))

-- The keys 1 to 3, one after the other.
inserted :
    insert (node black (node red leaf 1 leaf) 2 leaf) 3
    ≡ some (node black (node black leaf 1 leaf) 2 (node black leaf 3 leaf))
unfolding insert
inserted = refl

-- A red link is moved over the root.
removed :
    remove (node black (node black leaf 1 leaf) 2 (node black leaf 3 leaf)) 2
    ≡ some (node black (node red leaf 1 leaf) 3 leaf)
unfolding remove
removed = refl

greatest_removed :
    remove_greatest (node black (node black leaf 1 leaf) 2 (node black leaf 3 leaf))
    ≡ some (node black (node red leaf 1 leaf) 2 leaf)
unfolding remove_greatest
greatest_removed = refl

-- A key that is not there sends `remove` through a null pointer.
remove_missing : remove (node black leaf 1 leaf) 2 ≡ none
unfolding remove
remove_missing = refl

-- The right child of the root and the right child of its left child have the same turns, so one of
-- the two leaves below is lost.
lost_leaf :
    map
      (λ e. key_of e.1)
      (collect_all_leaves
        (node black (node black leaf 1 (node red leaf 2 leaf)) 3 (node black leaf 4 leaf)))
    ≡ 2 ∷ []
unfolding collect_leaves
lost_leaf = refl

by_order : IsAscending (keys tree)
by_order = ground arith

insert-IsBalanced_example : Holds (insert_key 7 (keys tree)) (insert tree 7)
insert-IsBalanced_example = insert-IsBalanced 2 tree 7 tree-IsBalanced tree-IsLeaning (by_order)

remove-IsBalanced_example : Holds (remove_key 4 (keys tree)) (remove tree 4)
remove-IsBalanced_example = remove-IsBalanced 2 tree 4 tree-IsBalanced tree-IsLeaning by_order refl

remove_least-IsBalanced_example : Holds (remove_key 1 (keys tree)) (remove_least tree)
remove_least-IsBalanced_example =
    remove_least-IsBalanced 2 tree 1 tree-IsBalanced tree-IsLeaning by_order refl

contains-has_key_example : contains tree 5 ≡ has_key 5 (keys tree)
contains-has_key_example = contains-has_key tree 5 by_order

get_max_depth_lem_example :
    (get_max_depth tree ≤ 2 * 2)
    × (2 ^ get_max_depth tree ≤ suc (size tree) * suc (size tree))
    × ((lvl : ℕ) → is_empty (get_nodes_at_level tree lvl) ≡ leb (get_max_depth tree) lvl)
get_max_depth_lem_example = get_max_depth_lem 2 tree tree-IsBalanced tree-IsLeaning refl
