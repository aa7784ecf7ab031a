-- ===== src/Structures/BTree.antt =====
-- The B-tree of data-structure/04-btree/include/btree.hpp, for keys of type size_t (T() is 0). A
-- node's arrays are functions of the index, so a slot past the n keys keeps what it held, and an
-- index past the end of an array is not an error here. A result is none where the code follows a
-- null pointer, and where the fuel of a recursion does not reach the leaves.
pub mod Insert
pub mod Remove
pub mod Edge
pub mod Order
pub mod Cut
pub mod Shape
pub mod Separators
pub mod Search
pub mod Walk
mod Tests
pub mod Sides
use snu_projects.Base.{
  ℕ, zero, suc, ◌+◌, ◌-◌, ◌*◌, Bool, true, false, ◌&&◌, List, [], ◌∷◌, ◌++◌, Option, none, some,
  ◌==◌, ltb, leb, if◌then◌else◌,
}

pub data NodeType : Type 0 where
  leaf internal : NodeType

-- A pointer to a node: its type, n, keys and edges.
pub data Node : Type 0 where
  null : Node
  node : NodeType → ℕ → (ℕ → ℕ) → (ℕ → Node) → Node

-- `a[i] = x`
unfoldable pub assign {ℓ} : {A : Type ℓ} → (ℕ → A) → ℕ → A → (ℕ → A)
assign a i x j = if j == i then x else a j

-- `std::move(src + first, src + last, dst + to)` of trivially copyable elements (a memmove).
unfoldable pub move_range {ℓ} : {A : Type ℓ} → (ℕ → A) → ℕ → ℕ → (ℕ → A) → ℕ → (ℕ → A)
move_range src first last dst to i =
    if leb to i && ltb i (to + (last - first)) then src (first + (i - to)) else dst i

-- `BTreeNode()`
abbrev pub no_keys : ℕ → ℕ
no_keys i = 0

abbrev pub no_edges : ℕ → Node
no_edges i = null

unfoldable pub new_node : Node
new_node = node leaf 0 no_keys no_edges

-- `BTreeNode(t)`
unfoldable pub node_of : ℕ → Node
unfolding assign
node_of t = node leaf 1 (assign no_keys 0 t) no_edges

-- `std::lower_bound(keys + i, keys + i + m, t) - keys` of sorted keys
unfoldable pub lower_bound : (ℕ → ℕ) → ℕ → ℕ → ℕ → ℕ
lower_bound keys i zero t = i
lower_bound keys i (suc m) t =
    let later = lower_bound keys (suc i) m t in if ltb (keys i) t then later else i

unfoldable pub get_index : ℕ → (ℕ → ℕ) → ℕ → ℕ
unfolding lower_bound
get_index n keys t = if n == 0 then 0 else lower_bound keys 0 n t

-- `for_all`: the keys that the callback gets, in the order of the calls. The two loops, each with
-- what follows it.
unfoldable pub keys_from : ℕ → ℕ → (ℕ → ℕ) → List ℕ
keys_from i zero keys = []
keys_from i (suc m) keys = keys i ∷ keys_from (suc i) m keys

unfoldable pub rest_from : ℕ → ℕ → (ℕ → ℕ) → (ℕ → List ℕ) → List ℕ
rest_from i zero keys below = below i
rest_from i (suc m) keys below = below i ++ (keys i ∷ rest_from (suc i) m keys below)

unfoldable pub for_all : Node → List ℕ
unfolding keys_from rest_from
for_all null = []
for_all (node leaf n keys edges) = keys_from 0 n keys
for_all (node internal n keys edges) =
    let all = rest_from 0 n keys (λ j. for_all (edges j)) in if ltb n 1 then [] else all

-- `n`, and the node that an edge leads to, as the callers read them.
unfoldable pub count : Node → ℕ
count null = 0
count (node type n keys edges) = n

unfoldable pub edge : Node → ℕ → Node
edge null i = null
edge (node type n keys edges) i = edges i

unfoldable pub depth : Node → ℕ
depth null = 0
depth (node leaf n keys edges) = 0
depth (node internal n keys edges) = 1 + depth (edges 0)

-- `find_rightmost_key`
unfoldable pub find_rightmost_key : Node → ℕ
find_rightmost_key null = 0
find_rightmost_key (node leaf n keys edges) = keys (n - 1)
find_rightmost_key (node internal n keys edges) = find_rightmost_key (edges n)

-- `search`: the node found, with the index in it. A leaf is searched in all its 2 B - 1 slots.
unfoldable pub search_slots : ℕ → (ℕ → ℕ) → ℕ → ℕ → Option ℕ
search_slots t keys i zero = none
search_slots t keys i (suc m) =
    let later = search_slots t keys (suc i) m in if t == keys i then some i else later

unfoldable pub found : Node → Option ℕ → Option (Node × ℕ)
found p none = none
found p (some i) = some (p, i)

unfoldable pub search_from :
    ℕ → (ℕ → ℕ) → Node → (ℕ → Option (Node × ℕ)) → ℕ → ℕ → Option (Node × ℕ)
search_from t keys p below i zero = below i
search_from t keys p below i (suc m) =
    let later = search_from t keys p below (suc i) m in
    if t == keys i then some (p, i) else if ltb t (keys i) then below i else later

unfoldable pub search : ℕ → Node → ℕ → Option (Node × ℕ)
unfolding search_slots found search_from
search B null t = none
search B (node leaf n keys edges) t =
    found (node leaf n keys edges) (search_slots t keys 0 (2 * B - 1))
search B (node internal n keys edges) t =
    search_from t keys (node internal n keys edges) (λ i. search B (edges i) t) 0 n

-- `for_all_nodes`: the nodes that the callback gets, in the order of the calls.
unfoldable pub nodes_from : ℕ → ℕ → (ℕ → List Node) → List Node
nodes_from i zero beneath = []
nodes_from i (suc m) beneath = beneath i ++ nodes_from (suc i) m beneath

unfoldable pub for_all_nodes : Node → List Node
unfolding nodes_from
for_all_nodes null = []
for_all_nodes (node leaf n keys edges) = node leaf n keys edges ∷ []
for_all_nodes (node internal n keys edges) =
    let visited = nodes_from 0 (n + 1) (λ j. for_all_nodes (edges j)) in
    if ltb n 1 then [] else node internal n keys edges ∷ visited

-- `find_nodes_at_level`
unfoldable pub find_nodes_at_level : ℕ → Node → List Node
unfolding nodes_from
find_nodes_at_level zero p = p ∷ []
find_nodes_at_level (suc lv) null = []
find_nodes_at_level (suc lv) (node type n keys edges) =
    nodes_from 0 (n + 1) (λ j. find_nodes_at_level lv (edges j))
