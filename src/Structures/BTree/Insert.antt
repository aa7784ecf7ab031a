-- ===== src/Structures/BTree/Insert.antt =====
-- Insertion into the B-tree of data-structure/04-btree/include/btree.hpp: BTree::insert,
-- BTreeNode::insert and split_child.
pub mod Opened
pub mod Leaf
pub mod Edge
pub mod Laws
pub mod Root
pub mod Split
pub mod SplitChild
use snu_projects.Base.{
  ℕ, zero, suc, ◌+◌, ◌-◌, ◌*◌, Bool, true, false, ◌&&◌, ◌==◌, ltb, leb, if◌then◌else◌, Option, none,
  some,
}
use snu_projects.Structures.BTree.{
  NodeType, leaf, internal, Node, null, node, assign, move_range, no_keys, no_edges, node_of,
  get_index, count, depth, edge,
}

-- `std::fill_n(a + from, len, x)`
unfoldable pub fill_n {ℓ} : {A : Type ℓ} → (ℕ → A) → ℕ → ℕ → A → (ℕ → A)
fill_n a from len x i = if leb from i && ltb i (from + len) then x else a i

-- The edges that the new child takes, and those that the old one keeps: a leaf's are not touched.
unfoldable pub taken_edges : ℕ → NodeType → (ℕ → Node) → (ℕ → Node)
unfolding move_range
taken_edges B leaf edges = no_edges
taken_edges B internal edges = move_range edges B (B + B) no_edges 0

unfoldable pub kept_edges : ℕ → NodeType → (ℕ → Node) → (ℕ → Node)
unfolding fill_n
kept_edges B leaf edges = edges
kept_edges B internal edges = fill_n edges B B null

unfoldable pub new_child : ℕ → NodeType → (ℕ → ℕ) → (ℕ → Node) → Node
unfolding move_range taken_edges
new_child B type keys edges =
    node type (B - 1) (move_range keys B (2 * B - 1) no_keys 0) (taken_edges B type edges)

unfoldable pub old_child : ℕ → NodeType → (ℕ → ℕ) → (ℕ → Node) → Node
unfolding fill_n kept_edges
old_child B type keys edges =
    node type (B - 1) (fill_n keys (B - 1) (B - 1) 0) (kept_edges B type edges)

-- `split_child`: the parent's arrays open up at `idx`, where the child's middle key goes.
unfoldable pub opened_keys : ℕ → (ℕ → ℕ) → ℕ → ℕ → (ℕ → ℕ)
unfolding assign move_range
opened_keys n keys idx t = assign (move_range keys idx n keys (idx + 1)) idx t

unfoldable pub opened_edges : ℕ → (ℕ → Node) → ℕ → Node → Node → (ℕ → Node)
unfolding assign move_range
opened_edges n edges idx old new =
    assign (assign (move_range edges (idx + 1) (n + 1) edges (idx + 2)) (idx + 1) new) idx old

unfoldable pub split_full : ℕ → NodeType → ℕ → (ℕ → ℕ) → (ℕ → Node) → ℕ → Node → Option Node
unfolding opened_keys opened_edges new_child old_child
split_full B type n keys edges idx null = none
split_full B type n keys edges idx (node below m child_keys child_edges) = some (
    node type (n + 1) (opened_keys n keys idx (child_keys (B - 1))) (
      opened_edges n edges idx (old_child B below child_keys child_edges)
        (new_child B below child_keys child_edges)))

unfoldable pub split_child : ℕ → Node → ℕ → Option Node
unfolding split_full
split_child B null idx = none
split_child B (node type n keys edges) idx = split_full B type n keys edges idx (edges idx)

-- The index after a split is looked up again.
unfoldable pub index_in : Node → ℕ → ℕ
unfolding get_index
index_in null t = 0
index_in (node type n keys edges) t = get_index n keys t

unfoldable pub with_index : ℕ → Option Node → Option (Node × ℕ)
unfolding index_in
with_index t none = none
with_index t (some p) = some (p, index_in p t)

-- The edge to descend through, its node split first if it is full.
unfoldable pub make_room : ℕ → ℕ → NodeType → ℕ → (ℕ → ℕ) → (ℕ → Node) → Option (Node × ℕ)
unfolding get_index count split_child with_index
make_room B t type n keys edges =
    let idx = get_index n keys t in
    let parent = node type n keys edges in
    if leb (2 * B - 1) (count (edges idx))
    then with_index t (split_child B parent idx)
    else some (parent, idx)

unfoldable pub set_edge : Node → ℕ → Node → Node
unfolding assign
set_edge null idx c = null
set_edge (node type n keys edges) idx c = node type n keys (assign edges idx c)

-- What the call of the child's method changed, seen from the parent.
unfoldable pub in_edge : Node → ℕ → Option (Node × Bool) → Option (Node × Bool)
unfolding set_edge
in_edge p idx none = none
in_edge p idx (some (c, done)) = some (set_edge p idx c, done)

unfoldable pub insert_leaf : ℕ → ℕ → (ℕ → ℕ) → (ℕ → Node) → Node × Bool
unfolding get_index opened_keys
insert_leaf t n keys edges =
    let idx = get_index n keys t in
    if keys idx == t
    then (node leaf n keys edges, false)
    else (node leaf (n + 1) (opened_keys n keys idx t) edges, true)

unfoldable pub descend : (Node → Option (Node × Bool)) → Option (Node × ℕ) → Option (Node × Bool)
unfolding edge in_edge
descend below none = none
descend below (some (p, idx)) = in_edge p idx (below (edge p idx))

-- `BTreeNode::insert`, on fuel.
unfoldable pub insert_node : ℕ → ℕ → ℕ → Node → Option (Node × Bool)
unfolding insert_leaf make_room descend
insert_node B zero t p = none
insert_node B (suc fuel) t null = none
insert_node B (suc fuel) t (node leaf n keys edges) = some (insert_leaf t n keys edges)
insert_node B (suc fuel) t (node internal n keys edges) =
    descend (insert_node B fuel t) (make_room B t internal n keys edges)

-- `BTree::insert`. A full root becomes the only child of a new root, and is split.
unfoldable pub grow_root : ℕ → Node → Option Node
unfolding assign count split_child
grow_root B root =
    if leb (2 * B - 1) (count root)
    then split_child B (node internal 0 no_keys (assign no_edges 0 root)) 0
    else some root

unfoldable pub insert_below : ℕ → ℕ → Option Node → Option (Node × Bool)
unfolding depth insert_node
insert_below B t none = none
insert_below B t (some root) = insert_node B (suc (depth root)) t root

unfoldable pub insert : ℕ → Node → ℕ → Option (Node × Bool)
unfolding node_of grow_root insert_below
insert B null t = some (node_of t, true)
insert B (node type n keys edges) t = insert_below B t (grow_root B (node type n keys edges))
