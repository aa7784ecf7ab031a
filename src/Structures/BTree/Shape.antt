-- ===== src/Structures/BTree/Shape.antt =====
-- The shape that the comments and the README of data-structure/04-btree give a B-tree: all leaves
-- at one depth, B - 1 to 2 B - 1 keys in a node, the root's lower bound excepted.
use snu_projects.Base.{ℕ, suc, ◌+◌, ◌-◌, ◌*◌, ◌≤◌, ◌<◌, ◌≡◌, refl, sym, ap, ◌∙◌, List, [], arith}
use snu_projects.Structures.BTree.{
  NodeType, leaf, internal, Node, node, for_all, rest_from, count, depth,
}
use snu_projects.Structures.BTree.Order.{rest_from-leaf}

-- Height and number of keys, and what holds of the slots of the leaves past their n keys.
pub data IsTree (P : ℕ → Type 0) (B : ℕ) : ℕ → Node → Type 0 where
  leaves :
      (n : ℕ) (keys : ℕ → ℕ) (edges : ℕ → Node)
      → n ≤ 2 * B - 1
      → ((i : ℕ) → n ≤ i → i < 2 * B - 1 → P (keys i))
      → IsTree P B 0 (node leaf n keys edges)
  inner :
      (h n : ℕ) (keys : ℕ → ℕ) (edges : ℕ → Node)
      → 0 < n
      → n ≤ 2 * B - 1
      → ((i : ℕ) → i ≤ n → IsTree P B h (edges i))
      → ((i : ℕ) → i ≤ n → B - 1 ≤ count (edges i))
      → IsTree P B (suc h) (node internal n keys edges)

unfoldable pub below : NodeType → (ℕ → Node) → (ℕ → List ℕ)
unfolding for_all
below leaf edges j = []
below internal edges j = for_all (edges j)

-- An internal node without keys is not walked at all.
abbrev pub IsWalked : NodeType → ℕ → Type 0
IsWalked leaf n = Unit {0}
IsWalked internal n = 0 < n

pub for_all-rest :
    (type : NodeType) (n : ℕ) (keys : ℕ → ℕ) (edges : ℕ → Node)
    → IsWalked type n
    → for_all (node type n keys edges) ≡ rest_from 0 n keys (below type edges)
unfolding for_all below
for_all-rest leaf n keys edges w = sym (rest_from-leaf 0 n keys)
for_all-rest internal n keys edges w = ground arith

pub count-le : (P : ℕ → Type 0) (B h : ℕ) (p : Node) → IsTree P B h p → count p ≤ 2 * B - 1
unfolding count
count-le P B h p (leaves n keys edges le stale) = le
count-le P B h p (inner h' n keys edges pos le children filled) = le

pub depth_lem : (P : ℕ → Type 0) (B h : ℕ) (p : Node) → IsTree P B h p → depth p ≡ h
unfolding depth
depth_lem P B h p (leaves n keys edges le stale) = refl
depth_lem P B h p (inner h' n keys edges pos le children filled) =
    ap (λ d. 1 + d) (depth_lem P B h' (edges 0) (children 0 (omega arith))) ∙ omega arith
