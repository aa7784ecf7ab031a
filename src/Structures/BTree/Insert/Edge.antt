-- ===== src/Structures/BTree/Insert/Edge.antt =====
-- insert of data-structure/04-btree/include/btree.hpp at an internal node: the insertion below the
-- edge of the key, seen from the node.
use snu_projects.Base.{
  ℕ, suc, ◌-◌, ◌*◌, ◌≤◌, ◌<◌, ◌≡◌, sym, ap, subst, ◌∙◌, arith, if◌then◌else◌, Bool, true, false,
  Option,
}
use snu_projects.Structures.Keys.{insert_key, has_key, IsAscending}
use snu_projects.Structures.BTree.{internal, Node, node, for_all, count, get_index, assign}
use snu_projects.Structures.BTree.Insert.{set_edge, in_edge}
use snu_projects.Structures.BTree.Cut.{around}
use snu_projects.Structures.BTree.Shape.{IsTree, inner, below}
use snu_projects.Structures.BTree.Sides.{get_index-le, get_index-below, get_index-above}
use snu_projects.Structures.BTree.Separators.{insert_key-around, has_key-around, separator_ne}
use snu_projects.Structures.BTree.Edge.{
  assign_all, for_all-around, for_all-assign, child-IsAscending, has_key-child,
}
use snu_projects.Structures.BTree.Insert.Leaf.{Inserts}

-- What an insertion takes for granted of the node it gets.
abbrev pub IsOpen : (ℕ → Type 0) → ℕ → ℕ → ℕ → Node → Type 0
IsOpen P B t h p =
    IsTree P B h p
    × IsAscending (for_all p)
    × (has_key t (for_all p) ≡ false)
    × ((x : ℕ) → has_key x (for_all p) ≡ true → P x)

pub IsOpen-same :
    (P : ℕ → Type 0) (B t h : ℕ) (p q : Node)
    → for_all q ≡ for_all p
    → IsTree P B h q
    → (h' : ℕ) → IsOpen P B t h' p
    → IsOpen P B t h q
IsOpen-same P B t h p q same tree h' ready = (
  tree,
  subst IsAscending (sym same) ready.1,
  ap (has_key t) same ∙ ready.2,
  λ x h. ready.3 x (ap (has_key x) (sym same) ∙ h),
)

module _ (P : ℕ → Type 0) (B t h : ℕ) (n : ℕ) (keys : ℕ → ℕ) (edges : ℕ → Node) (pos : 0 < n)
    (le : n ≤ 2 * B - 1) (trees : (j : ℕ) → j ≤ n → IsTree P B h (edges j))
    (filled : (j : ℕ) → j ≤ n → B - 1 ≤ count (edges j))
    (asc : IsAscending (for_all (node internal n keys edges)))
    (absent : has_key t (for_all (node internal n keys edges)) ≡ false)
    (mine : (x : ℕ) → has_key x (for_all (node internal n keys edges)) ≡ true → P x) where
  abbrev idx : ℕ
  idx = get_index n keys t

  in_range : idx ≤ n
  in_range = get_index-le n keys t

  cut :
      for_all (node internal n keys edges)
      ≡ around idx (n - idx) keys (below internal edges) (for_all (edges idx))
  cut = for_all-around n keys edges pos idx in_range

  after : 0 < n - idx → t < keys idx
  after room =
      let above = get_index-above n keys t (omega arith) in
      let ne =
        separator_ne idx (n - idx) keys (below internal edges) t (for_all (edges idx))
          (ap (has_key t) (sym cut) ∙ absent) room in
      omega arith

  pub child-IsOpen : IsOpen P B t h (edges idx)
  child-IsOpen = (
    trees idx in_range,
    child-IsAscending n keys edges pos idx in_range asc,
    sym (
          has_key-around idx (n - idx) keys (below internal edges) t (for_all (edges idx))
            (subst IsAscending cut asc) (get_index-below n keys t) after)
        ∙ ap (has_key t) (sym cut)
        ∙ absent,
    λ x h. mine x (has_key-child n keys edges pos idx in_range x h),
  )

  -- What the insertion did below the edge, seen from the node.
  pub in_edge_lem :
      (o : Option (Node × Bool))
      → Inserts P B t h (edges idx) o
      → Inserts P B t
          (suc h)
          (node internal n keys edges)
          (in_edge (node internal n keys edges) idx o)
  unfolding in_edge set_edge count
  in_edge_lem o (c, done, e, (tree, grown, order, told)) = (
    node internal n keys (assign edges idx c),
    done,
    ap (in_edge (node internal n keys edges) idx) e,
    (
      inner h n keys _ pos le (assign_all edges idx c (IsTree P B h) n trees tree) (
          assign_all edges idx c (λ d. B - 1 ≤ count d) n filled
            (more (count (edges idx)) (count c) (filled idx in_range) grown)),
      omega arith,
      for_all-assign n keys edges pos idx in_range c ∙ place done order,
      told,
    ),
  )
    where
      more : (a b : ℕ) → B - 1 ≤ a → a ≤ b → B - 1 ≤ b
      more a b x y = omega arith

      place :
          (d : Bool)
          → for_all c ≡ (if d then insert_key t (for_all (edges idx)) else for_all (edges idx))
          → around idx (n - idx) keys (below internal edges) (for_all c) ≡ (
              if d
              then insert_key t (for_all (node internal n keys edges))
              else for_all (node internal n keys edges))
      place true o =
          ap (around idx (n - idx) keys (below internal edges)) o
          ∙ sym (
              insert_key-around idx (n - idx) keys (below internal edges) t (for_all (edges idx))
                (subst IsAscending cut asc) (get_index-below n keys t) after)
          ∙ ap (insert_key t) (sym cut)
      place false o = ap (around idx (n - idx) keys (below internal edges)) o ∙ sym cut
