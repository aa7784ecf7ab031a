-- ===== src/Structures/RbTree/Remove.antt =====
-- Removal from the red-black tree of data-structure/03-rbtree/include/rbtree.hpp. A `none` is a read
-- through `nullptr`, or fuel that ran out; the number of nodes is fuel enough.
pub mod Steps
pub mod Descend
pub mod Least
pub mod Right
pub mod Recolor
pub mod Branch
pub mod Valid
pub mod Root
use snu_projects.Base.{
  ℕ, zero, suc, ◌+◌, Bool, true, false, not, ◌&&◌, Option, none, some, ◌==◌, ltb,
}
use snu_projects.Structures.RbTree.{
  Color, red, black, Tree, leaf, node, is_red, flip_color, rotate_right, rotate_left, left_of,
  right_of, and_then, when, with_left, with_right, blacken, leftmost_key, fix_up,
}

abbrev pub size : Tree → ℕ
size leaf = 0
size (node c l k r) = suc (size l + size r)

abbrev pub is_null : Tree → Bool
is_null leaf = true
is_null (node c l k r) = false

-- `n->key`, of a node.
abbrev pub key_of : Tree → ℕ
key_of leaf = 0
key_of (node c l k r) = k

-- `n->left.reset(step(n->left));`
pub on_left : (Tree → Option Tree) → Tree → Option Tree
unfolding with_left
on_left step leaf = none
on_left step (node c l k r) = with_left c k r (step l)

pub on_right : (Tree → Option Tree) → Tree → Option Tree
unfolding with_right
on_right step leaf = none
on_right step (node c l k r) = with_right c l k (step r)

-- `RBNode::move_red_right`
pub move_red_right : Tree → Option Tree
move_red_right leaf = none
move_red_right (node c leaf k r) = none
move_red_right (node c (node cl ll kl lr) k r) =
    and_then (flip_color (node c (node cl ll kl lr) k r))
      (when (is_red ll) (λ n. and_then (rotate_right n) flip_color))

-- `RBNode::move_red_left`
pub move_red_left : Tree → Option Tree
unfolding on_right
move_red_left leaf = none
move_red_left (node c l k leaf) = none
move_red_left (node c l k (node cr rl kr rr)) =
    and_then (flip_color (node c l k (node cr rl kr rr))) (
      when (is_red rl)
        (λ n. and_then (on_right rotate_right n) λ n₁. and_then (rotate_left n₁) flip_color))

-- `if(!is_red(n->left) && !is_red(n->left->left)) n.reset(move_red_left(n));`
pub prepare_left : Tree → Option Tree
unfolding move_red_left
prepare_left leaf = none
prepare_left (node c leaf k r) = none
prepare_left (node c (node cl ll kl lr) k r) =
    when (not (is_red (node cl ll kl lr)) && not (is_red ll)) move_red_left
      (node c (node cl ll kl lr) k r)

-- `if(!is_red(n->right) && !is_red(n->right->left)) n.reset(move_red_right(n));`
pub prepare_right : Tree → Option Tree
unfolding move_red_right
prepare_right leaf = none
prepare_right (node c l k leaf) = none
prepare_right (node c l k (node cr rl kr rr)) =
    when (not (is_red (node cr rl kr rr)) && not (is_red rl)) move_red_right
      (node c l k (node cr rl kr rr))

-- `if(is_red(n->left)) n.reset(rotate_right(n));`
abbrev pub pull_right : Tree → Option Tree
pull_right n = when (is_red (left_of n)) rotate_right n

-- `RBNode::remove_min`
pub remove_min : ℕ → Tree → Option Tree
unfolding prepare_left on_left fix_up
remove_min zero n = none
remove_min (suc fuel) leaf = none
remove_min (suc fuel) (node c leaf k r) = some leaf
remove_min (suc fuel) (node c (node cl ll kl lr) k r) =
    and_then (prepare_left (node c (node cl ll kl lr) k r))
      λ n. and_then (on_left (remove_min fuel) n) fix_up

-- `RBNode::remove_max`
pub remove_max : ℕ → Tree → Option Tree
unfolding prepare_right on_right fix_up
remove_max zero n = none
remove_max (suc fuel) leaf = none
remove_max (suc fuel) (node c l k r) = and_then (pull_right (node c l k r)) λ n.
    elim (is_null (right_of n)) [
      | true ↦ some leaf
      | false ↦ and_then (prepare_right n) λ n₁. and_then (on_right (remove_max fuel) n₁) fix_up
    ]

pub with_key : Color → Tree → Option ℕ → Option Tree → Option Tree
unfolding with_right
with_key c l none o = none
with_key c l (some k) o = with_right c l k o

-- The end of the second branch of `RBNode::remove`: the key of the node is replaced by the least one
-- of its right subtree, or the key is removed from that subtree.
pub take_right : (Tree → Option Tree) → ℕ → ℕ → Tree → Option Tree
unfolding remove_min on_right with_key leftmost_key
take_right step fuel t leaf = none
take_right step fuel t (node c l k r) = elim (t == k) [
  | true ↦ with_key c l (leftmost_key r) (remove_min fuel r)
  | false ↦ with_right c l k (step r)
]

-- `RBNode::remove`
pub remove_node : ℕ → Tree → ℕ → Option Tree
unfolding prepare_left prepare_right on_left take_right fix_up
remove_node zero n t = none
remove_node (suc fuel) leaf t = none
remove_node (suc fuel) (node c l k r) t = elim (ltb t k) [
  | true ↦
      and_then (prepare_left (node c l k r))
        λ n. and_then (on_left (λ l₁. remove_node fuel l₁ t) n) fix_up
  | false ↦ and_then (pull_right (node c l k r)) λ n.
      elim ((t == key_of n) && is_null (right_of n)) [
        | true ↦ some leaf
        | false ↦
            and_then (prepare_right n)
              λ n₁. and_then (take_right (λ r₁. remove_node fuel r₁ t) fuel t n₁) fix_up
      ]
]

-- `RBTree::remove`, `remove_min` and `remove_max`
unfoldable pub remove : Tree → ℕ → Option Tree
unfolding remove_node
remove root t = and_then (remove_node (size root) root t) (λ n. some (blacken n))

unfoldable pub remove_least : Tree → Option Tree
unfolding remove_min
remove_least root = and_then (remove_min (size root) root) (λ n. some (blacken n))

unfoldable pub remove_greatest : Tree → Option Tree
unfolding remove_max
remove_greatest root = and_then (remove_max (size root) root) (λ n. some (blacken n))
