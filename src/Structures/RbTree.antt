-- ===== src/Structures/RbTree.antt =====
-- The left-leaning red-black tree of data-structure/03-rbtree/include/rbtree.hpp, with numbers as
-- keys. A `std::unique_ptr` is a tree, and `nullptr` is `leaf`; a static function that takes a node
-- apart and returns a node is a function from trees to trees, and `none` is a read through `nullptr`.
pub mod Keys
pub mod Invariant
pub mod Insert
pub mod Remove
pub mod Walk
mod Tests
use snu_projects.Base.{
  ℕ, zero, suc, Bool, true, false, not, ◌&&◌, List, [], ◌∷◌, ◌++◌, Option, none, some, ◌==◌, ltb,
  if◌then◌else◌,
}

-- `color_t`: `RED` and `BLK`
pub data Color : Type 0 where
  red black : Color

-- `RBNode<T>`
pub data Tree : Type 0 where
  leaf : Tree
  node : (color : Color) (left : Tree) (key : ℕ) (right : Tree) → Tree

-- `RBNode::is_red`
abbrev pub is_red : Tree → Bool
is_red leaf = false
is_red (node red l k r) = true
is_red (node black l k r) = false

-- `!color`
abbrev pub other : Color → Color
other red = black
other black = red

abbrev flip_child : Tree → Tree
flip_child leaf = leaf
flip_child (node c l k r) = node (other c) l k r

-- `RBNode::flip_color`
abbrev pub flip_color : Tree → Option Tree
flip_color leaf = none
flip_color (node c l k r) = some (node (other c) (flip_child l) k (flip_child r))

-- `RBNode::rotate_right`
abbrev pub rotate_right : Tree → Option Tree
rotate_right leaf = none
rotate_right (node c leaf k r) = none
rotate_right (node c (node cl ll kl lr) k r) = some (node c ll kl (node red lr k r))

-- `RBNode::rotate_left`
abbrev pub rotate_left : Tree → Option Tree
rotate_left leaf = none
rotate_left (node c l k leaf) = none
rotate_left (node c l k (node cr rl kr rr)) = some (node c (node red l k rl) kr rr)

-- `n->left` and `n->right`, of a node.
abbrev pub left_of : Tree → Tree
left_of leaf = leaf
left_of (node c l k r) = l

abbrev pub right_of : Tree → Tree
right_of leaf = leaf
right_of (node c l k r) = r

abbrev pub and_then : Option Tree → (Tree → Option Tree) → Option Tree
and_then none f = none
and_then (some t) f = f t

-- `if (test) n.reset(step(n));`
abbrev pub when : Bool → (Tree → Option Tree) → Tree → Option Tree
when true step n = step n
when false step n = some n

-- `if(is_red(n->left) && is_red(n->left->left)) n.reset(rotate_right(n));`
abbrev pub lean : Tree → Option Tree
lean n = when (is_red (left_of n) && is_red (left_of (left_of n))) rotate_right n

-- `if(is_red(n->left) && is_red(n->right)) n->flip_color();`
abbrev pub split : Tree → Option Tree
split n = when (is_red (left_of n) && is_red (right_of n)) flip_color n

-- The end of `RBNode::insert`: the three tests on the way up.
pub repair : Tree → Option Tree
repair n =
    and_then (when (is_red (right_of n) && not (is_red (left_of n))) rotate_left n)
      λ n₁. and_then (lean n₁) split

pub with_left : Color → ℕ → Tree → Option Tree → Option Tree
with_left c k r none = none
with_left c k r (some l) = some (node c l k r)

pub with_right : Color → Tree → ℕ → Option Tree → Option Tree
with_right c l k none = none
with_right c l k (some r) = some (node c l k r)

-- `RBNode::insert`
pub insert_node : Tree → ℕ → Option Tree
unfolding repair with_left with_right
insert_node leaf t = some (node red leaf t leaf)
insert_node (node c l k r) t =
    let in_left = insert_node l t in
    let in_right = insert_node r t in
    and_then
      (if k == t
        then some (node c l k r)
        else if ltb t k
        then with_left c k r in_left
        else with_right c l k in_right)
      repair

-- `if (root) root->color = BLK;`
abbrev pub blacken : Tree → Tree
blacken leaf = leaf
blacken (node c l k r) = node black l k r

-- `RBTree::insert`
pub insert : Tree → ℕ → Option Tree
unfolding insert_node
insert leaf t = some (node black leaf t leaf)
insert (node c l k r) t = and_then (insert_node (node c l k r) t) (λ n. some (blacken n))

-- `RBNode::contains` and `RBTree::contains`
pub contains : Tree → ℕ → Bool
contains leaf t = false
contains (node c l k r) t =
    let in_left = contains l t in
    let in_right = contains r t in if t == k then true else if ltb t k then in_left else in_right

-- `RBNode::leftmost_key`; `RBTree::leftmost_key` is `std::nullopt` on the empty tree.
pub leftmost_key : Tree → Option ℕ
leftmost_key leaf = none
leftmost_key (node c leaf k r) = some k
leftmost_key (node c (node cl ll kl lr) k r) = leftmost_key (node cl ll kl lr)

-- `RBNode::rightmost_key`
pub rightmost_key : Tree → Option ℕ
rightmost_key leaf = none
rightmost_key (node c l k leaf) = some k
rightmost_key (node c l k (node cr rl kr rr)) = rightmost_key (node cr rl kr rr)

-- `RBNode::fix_up`
pub fix_up : Tree → Option Tree
fix_up n = and_then (when (is_red (right_of n)) rotate_left n) λ n₁. and_then (lean n₁) split
