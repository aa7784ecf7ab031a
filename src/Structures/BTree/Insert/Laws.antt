-- ===== src/Structures/BTree/Insert/Laws.antt =====
-- insert of data-structure/04-btree/include/btree.hpp, for a key that the tree does not hold.
use snu_projects.Base.{
  ℕ, zero, suc, ◌-◌, ◌*◌, ◌≤◌, ◌<◌, ◌≡◌, refl, sym, ap, subst, ◌∙◌, arith, leb, if◌then◌else◌, Bool,
  true, false, inl, inr, Bool-cases, Option, some,
}
use snu_projects.Structures.Keys.{insert_key}
use snu_projects.Structures.BTree.{internal, Node, node, for_all, count, get_index, edge}
use snu_projects.Structures.BTree.Insert.{
  split_full, split_child, with_index, index_in, make_room, descend, insert_node,
}
use snu_projects.Structures.BTree.Shape.{IsTree, leaves, inner, count-le, for_all-rest}
use snu_projects.Structures.BTree.Sides.{get_index-le}
use snu_projects.Structures.BTree.Edge.{has_key-child}
use snu_projects.Structures.BTree.Insert.SplitChild.{
  IsSplit, HasRoom, split_full_lem, split_full-HasRoom,
}
use snu_projects.Structures.BTree.Insert.Leaf.{Inserts, insert_leaf_lem}
use snu_projects.Structures.BTree.Insert.Edge.{IsOpen, child-IsOpen, in_edge_lem, IsOpen-same}

-- One level: the subtree's insertion is right, so the node's is.
module _ (P : ℕ → Type 0) (B t h : ℕ) (f : Node → Option (Node × Bool))
    (ih : (c : Node) → IsOpen P B t h c → count c < 2 * B - 1 → Inserts P B t h c (f c)) where
  descend_lem :
      (p : Node)
      → IsTree P B (suc h) p
      → IsOpen P B t (suc h) p
      → count (edge p (index_in p t)) < 2 * B - 1
      → Inserts P B t (suc h) p (descend f (some (p, index_in p t)))
  unfolding descend edge index_in
  descend_lem p (inner _ n keys edges pos le trees filled) ready room =
      in_edge_lem P B t h n keys edges pos le trees filled ready.1 ready.2 ready.3
        (f (edges (get_index n keys t)))
        (ih (edges (get_index n keys t))
          (child-IsOpen P B t h n keys edges pos le trees filled ready.1 ready.2 ready.3) room)

  -- The same of a parent and of what a split makes of it.
  unsplit :
      (n : ℕ) (keys : ℕ → ℕ) (edges : ℕ → Node) (p : Node) (o : Option (Node × Bool))
      → for_all p ≡ for_all (node internal n keys edges)
      → count p ≡ suc n
      → Inserts P B t (suc h) p o
      → Inserts P B t (suc h) (node internal n keys edges) o
  unfolding count
  unsplit n keys edges p o same more (p', done, e, (tree, grown, order, told)) = (
    p',
    done,
    e,
    (tree, omega arith, order ∙ ap (λ l. if done then insert_key t l else l) same, told),
  )

module _ (P : ℕ → Type 0) (at_zero : P 0) (B : ℕ) (two : 2 ≤ B) (t : ℕ) where
  module _ (h : ℕ) (f : Node → Option (Node × Bool))
      (ih : (c : Node) → IsOpen P B t h c → count c < 2 * B - 1 → Inserts P B t h c (f c)) where
    through_split :
        (n : ℕ) (keys : ℕ → ℕ) (edges : ℕ → Node) (o : Option Node)
        → IsOpen P B t (suc h) (node internal n keys edges)
        → HasRoom B t o
        → (p : Node) × (o ≡ some p) × IsSplit P B h n (for_all (node internal n keys edges)) p
        → Inserts P B t (suc h) (node internal n keys edges) (descend f (with_index t o))
    unfolding with_index
    through_split n keys edges o ready room (p, e, (tree, same, more)) =
        subst (λ x. Inserts P B t (suc h) (node internal n keys edges) (descend f (with_index t x)))
          (sym e)
          (unsplit P B t h f ih n keys edges p (descend f (some (p, index_in p t))) same more (
            descend_lem P B t h f ih p tree
              (IsOpen-same P B t (suc h) (node internal n keys edges) p same tree (suc h) ready)
              (less (count (edge p (index_in p t))) (subst (HasRoom B t) e room))))
      where
        less : (c : ℕ) → c ≡ B - 1 → c < 2 * B - 1
        less c same = omega arith

    at_level :
        (n : ℕ) (keys : ℕ → ℕ) (edges : ℕ → Node)
        → IsTree P B (suc h) (node internal n keys edges)
        → IsOpen P B t (suc h) (node internal n keys edges)
        → n < 2 * B - 1
        → Inserts P B t
            (suc h)
            (node internal n keys edges)
            (descend f (make_room B t internal n keys edges))
    unfolding make_room split_child edge index_in
    at_level n keys edges (inner _ _ _ _ pos le trees filled) ready room =
        elim (Bool-cases (leb (2 * B - 1) (count (edges idx)))) [
          | inl e ↦ rw e (
              through_split n keys edges (split_full B internal n keys edges idx (edges idx)) ready
                (split_full-HasRoom B n keys edges t idx (edges idx) refl) (split e))
          | inr e ↦ rw e (
              descend_lem P B t h f ih (node internal n keys edges)
                (inner h n keys edges pos le trees filled) ready (lt_of_leb (count (edges idx)) e))
        ]
      where
        idx : ℕ
        idx = get_index n keys t

        in_range : idx ≤ n
        in_range = get_index-le n keys t

        lt_of_leb : (c : ℕ) → leb (2 * B - 1) c ≡ false → c < 2 * B - 1
        lt_of_leb c e = ground arith

        eq_of_leb : (c : ℕ) → leb (2 * B - 1) c ≡ true → c ≤ 2 * B - 1 → c ≡ 2 * B - 1
        eq_of_leb c e le = ground arith

        is_full : leb (2 * B - 1) (count (edges idx)) ≡ true → count (edges idx) ≡ 2 * B - 1
        is_full e =
            let at_most = count-le P B h (edges idx) (trees idx in_range) in
            eq_of_leb (count (edges idx)) e at_most

        split :
            leb (2 * B - 1) (count (edges idx)) ≡ true
            → (p : Node) × (split_full B internal n keys edges idx (edges idx) ≡ some p)
              × IsSplit P B h n (for_all (node internal n keys edges)) p
        split e =
            let (p, made, (tree, same, more)) =
              split_full_lem P at_zero B two h n keys edges idx (edges idx) refl in_range room
                (is_full e) trees filled
                (λ x h. ready.3 x (has_key-child n keys edges pos idx in_range x h)) in
            (p, made, (tree, same ∙ sym (for_all-rest internal n keys edges pos), more))

  -- On enough fuel.
  pub insert_node_lem :
      (h fuel : ℕ) (p : Node)
      → h < fuel
      → IsTree P B h p
      → IsOpen P B t h p
      → count p < 2 * B - 1
      → Inserts P B t h p (insert_node B fuel t p)
  unfolding insert_node
  insert_node_lem h zero p enough tree ready room = absurd (omega arith)
  insert_node_lem h (suc fuel) p enough (leaves n keys edges le stale) ready room =
      insert_leaf_lem P at_zero B two t n keys edges room stale ready.1 ready.2
  insert_node_lem h (suc fuel) p enough (inner h' n keys edges pos le trees filled) ready room =
      at_level h' (insert_node B fuel t)
        (λ c ok space. insert_node_lem h' fuel c (omega arith) ok.0 ok space) n keys edges
        (inner h' n keys edges pos le trees filled) ready room
