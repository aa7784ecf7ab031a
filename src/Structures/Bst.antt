-- ===== src/Structures/Bst.antt =====
-- The binary search tree of data-structure/02-BST/include/BST.hpp, with numbers as keys. A
-- `std::unique_ptr` is a tree, and `nullptr` is `leaf`; a function that changes a tree in place
-- returns the new tree beside its result.
pub mod Laws
mod Tests
use snu_projects.Base.{ℕ, Bool, true, false, List, [], ◌∷◌, ◌++◌, ◌==◌, ltb, if◌then◌else◌}

-- `std::unique_ptr<TreeNode<T>>`
pub data Tree : Type 0 where
  leaf : Tree
  node : (left : Tree) (element : ℕ) (right : Tree) → Tree

-- `BST::insert`
pub insert : Tree → ℕ → Bool × Tree
insert leaf key = (true, node leaf key leaf)
insert (node l x r) key =
    let (done_left, l') = insert l key in
    let (done_right, r') = insert r key in
    if x == key
    then (false, node l x r)
    else if ltb key x
    then (done_left, node l' x r)
    else (done_right, node l x r')

-- `BST::search`
pub search : Tree → ℕ → Bool
search leaf key = false
search (node l x r) key =
    let in_left = search l key in
    let in_right = search r key in
    if x == key then true else if ltb key x then in_left else in_right

-- `BST::find_rightmost_key`; `T()` is 0.
pub find_rightmost_key : Tree → ℕ
find_rightmost_key leaf = 0
find_rightmost_key (node l x leaf) = x
find_rightmost_key (node l x (node rl y rr)) = find_rightmost_key (node rl y rr)

-- The removal of the element of a node: `without` is the left subtree without a key, which the
-- node with two children asks for.
drop_root : (left right : Tree) (without : Tree) → Tree
unfolding find_rightmost_key
drop_root leaf leaf without = leaf
drop_root leaf (node rl y rr) without = node rl y rr
drop_root (node ll y lr) leaf without = node ll y lr
drop_root (node ll y lr) (node rl z rr) without =
    node without (find_rightmost_key (node ll y lr)) (node rl z rr)

-- `BST::remove`
pub remove : Tree → ℕ → Bool × Tree
unfolding drop_root
remove leaf key = (false, leaf)
remove (node l x r) key =
    let (_, without) = remove l (find_rightmost_key l) in
    let (done_left, l') = remove l key in
    let (done_right, r') = remove r key in
    if x == key
    then (true, drop_root l r without)
    else if ltb key x
    then (done_left, node l' x r)
    else (done_right, node l x r')
