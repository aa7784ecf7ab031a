-- ===== src/Structures/RbTree/Walk.antt =====
-- The walks over the red-black tree of data-structure/03-rbtree/include/rbtree.hpp: the search with its
-- path, the traversal in order, the depth, the nodes of a level and the leaves. An
-- `std::unordered_map` is a list of its entries. The member functions are called on nodes, and what
-- they do for a child that is `nullptr` is their clause for `leaf`.
pub mod Depth
pub mod Leaves
pub mod Order
use snu_projects.Base.{
  ℕ, zero, suc, ◌+◌, ◌*◌, ◌^◌, ◌%◌, max, Bool, true, false, ◌&&◌, ◌||◌, List, [], ◌∷◌, ◌++◌, ◌==◌,
  ltb, if◌then◌else◌,
}
use snu_projects.Structures.RbTree.{Color, red, black, Tree, leaf, node}
use snu_projects.Structures.RbTree.Remove.{is_null}

-- `Path`: the turns as the bits of a `size_t`, their number, and the black nodes that were counted.
pub record SearchPath : Type 0 where
  pub p : ℕ
  pub len : ℕ
  pub num_black : ℕ

abbrev pub start : SearchPath
start = record { p = 0; len = 0; num_black = 0 }

abbrev pub count_black : Color → ℕ → ℕ
count_black red n = n
count_black black n = n + 1

-- `Path::down_left` and `Path::down_right`
abbrev pub down_left : SearchPath → Color → SearchPath
down_left sp color = record {
  p = (sp.p * 2) % 2 ^ 64;
  len = sp.len + 1;
  num_black = count_black color sp.num_black;
}

abbrev pub down_right : SearchPath → Color → SearchPath
down_right sp color = record {
  p = (sp.p * 2 + 1) % 2 ^ 64;
  len = sp.len + 1;
  num_black = count_black color sp.num_black;
}

-- `RBNode::search`
pub search : Tree → ℕ → SearchPath → Tree × SearchPath
search leaf t sp = (leaf, start)
search (node c l k r) t sp =
    let in_right = search r t (down_right sp c) in
    let in_left = search l t (down_left sp c) in
    if ltb k t then in_right else if ltb t k then in_left else (node c l k r, sp)

-- `RBNode::traverse_inorder`, for a function that changes a state.
module _ {ℓ} {S : Type ℓ} where
  unfoldable pub traverse_inorder : (Tree → S → S) → Tree → S → S
  traverse_inorder f leaf s = s
  traverse_inorder f (node c l k r) s =
      traverse_inorder f r (f (node c l k r) (traverse_inorder f l s))

-- `RBNode::get_max_depth`
pub get_max_depth : Tree → ℕ
get_max_depth leaf = 0
get_max_depth (node c leaf k leaf) = 1
get_max_depth (node c (node cl ll kl lr) k (node cr rl kr rr)) =
    1 + max (get_max_depth (node cl ll kl lr)) (get_max_depth (node cr rl kr rr))
get_max_depth (node c (node cl ll kl lr) k leaf) = 1 + get_max_depth (node cl ll kl lr)
get_max_depth (node c leaf k (node cr rl kr rr)) = 1 + get_max_depth (node cr rl kr rr)

-- `insert` into an `std::unordered_map`: an entry whose key is there already is not put in.
abbrev pub has_position : ℕ → List (ℕ × Tree) → Bool
has_position i [] = false
has_position i (e ∷ es) = (i == e.0) || has_position i es

abbrev pub insert_position : ℕ → Tree → List (ℕ × Tree) → List (ℕ × Tree)
insert_position i t es = if has_position i es then es else (i, t) ∷ es

-- `RBNode::_get_nodes_at_level`
pub nodes_at_level : ℕ → Tree → List (ℕ × Tree) → SearchPath → List (ℕ × Tree)
nodes_at_level lvl leaf ns sp = ns
nodes_at_level zero (node c l k r) ns sp = insert_position sp.p (node c l k r) ns
nodes_at_level (suc lvl) (node c l k r) ns sp =
    nodes_at_level lvl r (nodes_at_level lvl l ns (down_left sp c)) (down_right sp c)

-- `RBNode::get_nodes_at_level`
abbrev pub get_nodes_at_level : Tree → ℕ → List (ℕ × Tree)
get_nodes_at_level n lvl = nodes_at_level lvl n [] start

-- A map with paths as its keys: `operator==` and the hash of a path are those of its turns alone.
abbrev pub has_path : SearchPath → List (SearchPath × Tree) → Bool
has_path q [] = false
has_path q (e ∷ es) = (q.p == e.0.p) || has_path q es

abbrev pub insert_path : SearchPath → Tree → List (SearchPath × Tree) → List (SearchPath × Tree)
insert_path q t es = if has_path q es then es else (q, t) ∷ es

-- `n->color`, of a node.
abbrev pub color_of : Tree → Color
color_of leaf = red
color_of (node c l k r) = c

-- `RBNode::is_leaf`
abbrev pub is_leaf : Tree → Tree → Bool
is_leaf l r = is_null l && is_null r

-- `RBNode::_collect_all_leaves`
unfoldable pub collect_leaves :
    Tree → List (SearchPath × Tree) → SearchPath → List (SearchPath × Tree)
collect_leaves leaf ls q = ls
collect_leaves (node c l k r) ls q =
    let here = if is_leaf l r then insert_path q (node c l k r) ls else ls in
    collect_leaves r (collect_leaves l here (down_left q (color_of l))) (down_right q (color_of r))

-- `RBTree::collect_all_leaves` and `RBNode::collect_all_leaves`
abbrev pub collect_all_leaves : Tree → List (SearchPath × Tree)
collect_all_leaves root = collect_leaves root [] start
