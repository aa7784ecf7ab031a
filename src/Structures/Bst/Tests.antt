-- ===== src/Structures/Bst/Tests.antt =====
-- Runs of the search tree, and instances of its theorems.
use snu_projects.Base.{◌≡◌, arith}
use snu_projects.Structures.Keys.{remove_key, has_key, IsAscending}
use snu_projects.Structures.Bst.{Tree, leaf, node, remove}
use snu_projects.Structures.Bst.Laws.{keys, remove-remove_key}

abbrev tree : Tree
tree = node (node (node leaf 1 leaf) 2 leaf) 4 (node leaf 6 (node leaf 9 leaf))

by_order : IsAscending (keys tree)
by_order = ground arith

remove-remove_key_example :
    (keys (remove tree 4).1 ≡ remove_key 4 (keys tree))
    × ((remove tree 4).0 ≡ has_key 4 (keys tree))
remove-remove_key_example = remove-remove_key tree 4 by_order
