-- ===== src/Structures/BTree/Remove/Root.antt =====
-- BTreeNode::remove and BTree::remove of data-structure/04-btree/include/btree.hpp, for a key that
-- the tree holds.
use snu_projects.Base.{
  ℕ, zero, suc, ◌≤◌, ◌<◌, ◌≡◌, sym, ap, subst, ◌∙◌, arith, ◌==◌, true, inl, inr, Bool-cases, some,
  eq_of_==,
}
use snu_projects.Structures.Keys.{has_key, remove_key, IsAscending}
use snu_projects.Structures.BTree.{
  leaf, internal, Node, null, node, for_all, rest_from, count, depth,
}
use snu_projects.Structures.BTree.Remove.{remove_node, remove, finish_root, shrink_root}
use snu_projects.Structures.BTree.Shape.{IsTree, leaves, inner, below, for_all-rest, depth_lem}
use snu_projects.Structures.BTree.Remove.Siblings.{Any}
use snu_projects.Structures.BTree.Remove.Refill.{IsLoose, loose_leaf, loose_inner, inorder}
use snu_projects.Structures.BTree.Remove.Leaf.{Removes, remove_leaf_lem}
use snu_projects.Structures.BTree.Remove.Laws.{at_level}

-- On enough fuel.
pub remove_node_lem :
    (B : ℕ)
    → 2 ≤ B
    → (h fuel t : ℕ) (p : Node) → h < fuel
    → IsTree Any B h p
    → IsAscending (for_all p)
    → has_key t (for_all p) ≡ true
    → Removes B h t p (remove_node B fuel t p)
unfolding remove_node count
remove_node_lem B two h zero t p enough tree asc present = absurd (omega arith)
remove_node_lem B two h (suc fuel) t p enough (leaves n keys edges le stale) asc present =
    remove_leaf_lem B n keys edges le t asc present
remove_node_lem B two h (suc fuel) t p enough (inner h' n keys edges pos le trees filled) asc
      present =
    let walked = for_all-rest internal n keys edges pos in
    let (p', run, loose, order, kept) =
      at_level B h' two (remove_node B fuel)
        (λ x c tree sorted held many.
          remove_node_lem B two h' fuel x c (omega arith) tree sorted held)
        n keys edges t (inner h' n keys edges pos le trees filled) (subst IsAscending walked asc)
        (ap (has_key t) (sym walked) ∙ present) in
    (p', run, loose, order ∙ ap (remove_key t) (sym walked), kept)

-- The root: its height shrinks by one if it is left without keys.
shrink_root_lem :
    (B h : ℕ) (p : Node)
    → 2 ≤ B
    → IsLoose B h p
    → (h' : ℕ) × IsTree Any B h' (shrink_root p)
      × (for_all (shrink_root p) ≡ inorder p)
      × (h' ≤ h)
      × (h ≤ suc h')
unfolding shrink_root inorder rest_from below
shrink_root_lem B h p two (loose_leaf n keys edges le) = (
  0,
  leaves n keys edges le (λ i ge lt. tt),
  for_all-rest leaf n keys edges tt,
  omega arith,
  omega arith,
)
shrink_root_lem B h p two (loose_inner h' n keys edges le trees filled) =
    elim (Bool-cases (n == 0)) [
      | inl e ↦ rw e (
        h',
        trees 0 (omega arith),
        ap (λ m. rest_from 0 m keys (below internal edges)) (sym (eq_of_== n 0 e)),
        omega arith,
        omega arith,
      )
      | inr e ↦ rw e (
        suc h',
        inner h' n keys edges (ground arith) le trees filled,
        for_all-rest internal n keys edges (ground arith),
        omega arith,
        omega arith,
      )
    ]

-- Removing a key that a B-tree with ascending keys holds (for B of at least 2) ends, follows no null
-- pointer and returns true. The result is a B-tree, of the same height or one lower, and its keys in
-- order are the old ones without that key.
pub remove_lem :
    (B h : ℕ) (root : Node) (t : ℕ)
    → 2 ≤ B
    → IsTree Any B h root
    → IsAscending (for_all root)
    → has_key t (for_all root) ≡ true
    → (root' : Node) × (h' : ℕ) × (remove B root t ≡ some (root', true))
      × IsTree Any B h' root'
      × (for_all root' ≡ remove_key t (for_all root))
      × (h' ≤ h)
      × (h ≤ suc h')
unfolding remove finish_root
remove_lem B h null t two tree asc present = elim tree [ ]
remove_lem B h (node type n keys edges) t two tree asc present =
    let root = node type n keys edges in
    let (p', run, loose, order, kept) =
      remove_node_lem B two h (suc (depth root)) t root
        (subst (λ d. h < suc d) (sym (depth_lem Any B h root tree)) (omega arith)) tree asc
        present in
    let (h', tree', same, low, high) = shrink_root_lem B h p' two loose in
    (shrink_root p', h', ap finish_root run, tree', same ∙ order, low, high)
