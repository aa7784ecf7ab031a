-- ===== src/Structures/BTree/Remove.antt =====
-- Removal from the B-tree of data-structure/04-btree/include/btree.hpp: BTree::remove,
-- BTreeNode::remove, the borrowing from a sibling and the merging of two children.
pub mod WithPair
pub mod Root
pub mod Leaf
pub mod Edge
pub mod Laws
pub mod Halves
pub mod Siblings
pub mod Pair
pub mod Borrow
pub mod Merge
pub mod Refill
use snu_projects.Base.{
  ℕ, zero, suc, ◌+◌, ◌-◌, Bool, true, false, ◌&&◌, ◌==◌, ltb, leb, if◌then◌else◌, Option, none,
  some,
}
use snu_projects.Structures.BTree.{
  NodeType, leaf, internal, Node, null, node, assign, move_range, get_index, count, depth, edge,
  find_rightmost_key,
}
use snu_projects.Structures.BTree.Insert.{with_index, in_edge}

-- `borrow_from_right`: the edges of the child, which gets the sibling's first, and of the sibling.
unfoldable pub gained_last : NodeType → ℕ → (ℕ → Node) → (ℕ → Node) → (ℕ → Node)
unfolding assign
gained_last leaf n edges from = edges
gained_last internal n edges from = assign edges (n + 1) (from 0)

unfoldable pub lost_first : NodeType → ℕ → (ℕ → Node) → (ℕ → Node)
unfolding assign move_range
lost_first leaf n edges = edges
lost_first internal n edges = assign (move_range edges 1 (n + 1) edges 0) n null

-- `borrow_from_left`: those of the child, which gets the sibling's last, and of the sibling.
unfoldable pub gained_first : NodeType → ℕ → (ℕ → Node) → Node → (ℕ → Node)
unfolding assign move_range
gained_first leaf n edges from = edges
gained_first internal n edges from = assign (move_range edges 0 (n + 1) edges 1) 0 from

unfoldable pub lost_last : NodeType → ℕ → (ℕ → Node) → (ℕ → Node)
unfolding assign
lost_last leaf n edges = edges
lost_last internal n edges = assign edges n null

-- `merge_children`: the edges of the child, which gets all of the sibling's.
unfoldable pub joined_edges : NodeType → ℕ → (ℕ → Node) → ℕ → (ℕ → Node) → (ℕ → Node)
unfolding move_range
joined_edges leaf n edges m from = edges
joined_edges internal n edges m from = move_range from 0 (m + 1) edges (n + 1)

-- The child and its sibling after each; `key` is the parent's between them.
unfoldable pub extended : NodeType → ℕ → (ℕ → ℕ) → (ℕ → Node) → ℕ → (ℕ → Node) → Node
unfolding assign gained_last
extended type n keys edges key from =
    node type (n + 1) (assign keys n key) (gained_last type n edges from)

unfoldable pub without_first : NodeType → NodeType → ℕ → (ℕ → ℕ) → (ℕ → Node) → Node
unfolding move_range lost_first
without_first type below n keys edges =
    node below (n - 1) (move_range keys 1 n keys 0) (lost_first type n edges)

unfoldable pub prefixed : NodeType → ℕ → (ℕ → ℕ) → (ℕ → Node) → ℕ → Node → Node
unfolding assign move_range gained_first
prefixed type n keys edges key from =
    node type (n + 1) (assign (move_range keys 0 n keys 1) 0 key) (gained_first type n edges from)

unfoldable pub without_last : NodeType → NodeType → ℕ → (ℕ → ℕ) → (ℕ → Node) → Node
unfolding lost_last
without_last type below n keys edges = node below (n - 1) keys (lost_last type n edges)

unfoldable pub joined : NodeType → ℕ → (ℕ → ℕ) → (ℕ → Node) → ℕ → ℕ → (ℕ → ℕ) → (ℕ → Node) → Node
unfolding assign move_range joined_edges
joined type n keys edges key m from_keys from_edges =
    node type (n + (1 + m)) (move_range from_keys 0 m (assign keys n key) (n + 1))
      (joined_edges type n edges m from_edges)

module _ (type : NodeType) (n : ℕ) (keys : ℕ → ℕ) (edges : ℕ → Node) where
  -- The parent: a key and the edges on both its sides replaced.
  unfoldable pub with_pair : ℕ → ℕ → Node → Node → Node
  unfolding assign
  with_pair idx key left right =
      node type n (assign keys idx key) (assign (assign edges idx left) (idx + 1) right)

  unfoldable pub borrow_from_right : ℕ → Node → Node → Option Node
  unfolding extended without_first with_pair
  borrow_from_right idx (node below m ks es) (node beside l from_keys from_edges) = some (
      with_pair idx (from_keys 0) (extended below m ks es (keys idx) from_edges)
        (without_first below beside l from_keys from_edges))
  borrow_from_right idx child sibling = none

  -- `edge` is `idx + 1`.
  unfoldable pub borrow_from_left : ℕ → Node → Node → Option Node
  unfolding prefixed without_last with_pair
  borrow_from_left idx (node beside l from_keys from_edges) (node below m ks es) = some (
      with_pair idx (from_keys (l - 1)) (without_last below beside l from_keys from_edges)
        (prefixed below m ks es (keys idx) (from_edges l)))
  borrow_from_left idx sibling child = none

  -- The parent without the key at `idx` and the edge after it.
  unfoldable pub closed_keys : ℕ → (ℕ → ℕ)
  unfolding assign move_range
  closed_keys idx = assign (move_range keys (idx + 1) n keys idx) (n - 1) 0

  unfoldable pub closed_edges : ℕ → Node → (ℕ → Node)
  unfolding assign move_range
  closed_edges idx merged =
      assign (assign (move_range edges (idx + 2) (n + 1) edges (idx + 1)) n null) idx merged

  unfoldable pub merge_at : ℕ → Node → Node → Option Node
  unfolding joined closed_keys closed_edges
  merge_at idx (node below m ks es) (node beside l from_keys from_edges) = some (
      node type (n - 1) (closed_keys idx)
        (closed_edges idx (joined below m ks es (keys idx) l from_keys from_edges)))
  merge_at idx child sibling = none

  unfoldable pub merge_children : ℕ → Option Node
  unfolding merge_at
  merge_children e =
      let idx = if e == n then e - 1 else e in merge_at idx (edges idx) (edges (idx + 1))

  -- `try_borrow_from_sibling`, and `merge_children` where it returns false.
  unfoldable pub refill : ℕ → ℕ → Option Node
  unfolding count borrow_from_right borrow_from_left merge_children
  refill B e =
      if ltb e n && ltb (B - 1) (count (edges (e + 1)))
      then borrow_from_right e (edges e) (edges (e + 1))
      else if ltb 0 e && ltb (B - 1) (count (edges (e - 1)))
      then borrow_from_left (e - 1) (edges (e - 1)) (edges e)
      else merge_children e

  -- The node and the index to go on with: a child with B - 1 keys or fewer is refilled first.
  unfoldable pub prepare : ℕ → ℕ → Option (Node × ℕ)
  unfolding get_index count refill with_index
  prepare B t =
      let idx = get_index n keys t in
      if leb (count (edges idx)) (B - 1)
      then with_index t (refill B idx)
      else some (node type n keys edges, idx)

-- A key of an internal node gives way to the largest of the subtree before it.
unfoldable pub is_key_at : Node → ℕ → ℕ → Bool
is_key_at null idx t = false
is_key_at (node type n keys edges) idx t = ltb idx n && (keys idx == t)

unfoldable pub set_key : Node → ℕ → ℕ → Node
unfolding assign
set_key null idx x = null
set_key (node type n keys edges) idx x = node type n (assign keys idx x) edges

unfoldable pub remove_below :
    (ℕ → Node → Option (Node × Bool)) → ℕ → Option (Node × ℕ) → Option (Node × Bool)
unfolding edge find_rightmost_key is_key_at set_key in_edge
remove_below below t none = none
remove_below below t (some (p, idx)) =
    let rightmost = find_rightmost_key (edge p idx) in
    if is_key_at p idx t
    then in_edge (set_key p idx rightmost) idx (below rightmost (edge p idx))
    else in_edge p idx (below t (edge p idx))

-- A slot past the keys may equal the key: then the code moves a range that ends before it begins,
-- which is undefined, and the result is none.
unfoldable pub remove_leaf : ℕ → ℕ → (ℕ → ℕ) → (ℕ → Node) → Option (Node × Bool)
unfolding get_index closed_keys
remove_leaf t n keys edges =
    let idx = get_index n keys t in
    if keys idx == t
    then if ltb idx n
      then some (node leaf (n - 1) (closed_keys leaf n keys edges idx) edges, true)
      else none
    else some (node leaf n keys edges, false)

-- `BTreeNode::remove`, on fuel.
unfoldable pub remove_node : ℕ → ℕ → ℕ → Node → Option (Node × Bool)
unfolding remove_leaf prepare remove_below
remove_node B zero t p = none
remove_node B (suc fuel) t null = none
remove_node B (suc fuel) t (node leaf n keys edges) = remove_leaf t n keys edges
remove_node B (suc fuel) t (node internal n keys edges) =
    remove_below (remove_node B fuel) t (prepare internal n keys edges B t)

-- `BTree::remove`, which drops an internal root without keys and ignores the node's result.
unfoldable pub shrink_root : Node → Node
shrink_root null = null
shrink_root (node leaf n keys edges) = node leaf n keys edges
shrink_root (node internal n keys edges) = if n == 0 then edges 0 else node internal n keys edges

unfoldable pub finish_root : Option (Node × Bool) → Option (Node × Bool)
unfolding shrink_root
finish_root none = none
finish_root (some (root, found)) = some (shrink_root root, true)

unfoldable pub remove : ℕ → Node → ℕ → Option (Node × Bool)
unfolding depth remove_node finish_root
remove B null t = some (null, false)
remove B (node type n keys edges) t =
    let root = node type n keys edges in finish_root (remove_node B (suc (depth root)) t root)
