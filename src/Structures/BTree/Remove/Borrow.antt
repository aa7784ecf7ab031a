-- ===== src/Structures/BTree/Remove/Borrow.antt =====
-- borrow_from_right and borrow_from_left of data-structure/04-btree/include/btree.hpp, seen from
-- the parent of the two nodes.
use snu_projects.Base.{
  ℕ, suc, ◌-◌, ◌*◌, ◌≤◌, ◌<◌, ◌≡◌, refl, sym, ap₂, subst, ◌∙◌, List, ◌∷◌, ◌++◌, arith, some,
}
use snu_projects.Structures.Keys.{IsAscending}
use snu_projects.Structures.BTree.{internal, Node, null, node, for_all, rest_from, count, get_index}
use snu_projects.Structures.BTree.Remove.{
  borrow_from_right, borrow_from_left, with_pair, extended, without_first, prefixed, without_last,
}
use snu_projects.Structures.BTree.Shape.{IsTree, below}
use snu_projects.Structures.BTree.Remove.Siblings.{Any, borrowed_right, borrowed_left}
use snu_projects.Structures.BTree.Remove.Refill.{
  IsRefilled, separator-above, separator-below, has_key-key,
}
use snu_projects.Structures.BTree.Remove.WithPair.{
  IsWalked-of_IsTree, held, room_at, with_pair-IsLoose, inorder-with_pair, index_in-with_pair,
  index_in_after, edge-with_pair-left, edge-with_pair-right,
}

-- The two borrowings, between the children at `idx` and after it.
module _ (B h n : ℕ) (two : 2 ≤ B) (keys : ℕ → ℕ) (edges : ℕ → Node) (le : n ≤ 2 * B - 1)
    (trees : (j : ℕ) → j ≤ n → IsTree Any B h (edges j))
    (filled : (j : ℕ) → j ≤ n → B - 1 ≤ count (edges j))
    (asc : IsAscending (rest_from 0 n keys (below internal edges))) (t idx : ℕ)
    (inside : idx < n) where
  abbrev all_keys : List ℕ
  all_keys = rest_from 0 n keys (below internal edges)

  pub borrow_from_right_lem :
      (c s : Node)
      → c ≡ edges idx
      → s ≡ edges (suc idx)
      → idx ≡ get_index n keys t
      → t ≤ keys idx
      → ((j : ℕ) → j < idx → keys j < t)
      → count c ≡ B - 1
      → B ≤ count s
      → (p : Node) × (borrow_from_right internal n keys edges idx c s ≡ some p)
        × IsRefilled B h t all_keys n p
  unfolding borrow_from_right count extended without_first with_pair
  borrow_from_right_lem null s ec es at over under few many = absurd (omega arith)
  borrow_from_right_lem (node type m ks e) null ec es at over under few many = absurd (omega arith)
  borrow_from_right_lem (node type m ks e) (node beside l fk fe) ec es at over under few many =
      let of_child = subst (IsTree Any B h) (sym ec) (trees idx (omega arith)) in
      let of_sibling = subst (IsTree Any B h) (sym es) (trees (suc idx) (omega arith)) in
      let (of_left, of_right, order) =
        borrowed_right B h type m ks e (keys idx) beside l fk fe of_child of_sibling (omega arith)
          (omega arith) in
      let left = extended type m ks e (keys idx) fe in
      let right = without_first type beside l fk fe in
      let next = separator-below n idx keys (below internal edges) inside asc (fk 0) (
        held edges (suc idx) (node beside l fk fe) es (fk 0) (
          has_key-key beside l fk fe 0 (omega arith)
            (IsWalked-of_IsTree B h beside l fk fe of_sibling))) in
      let here =
        index_in-with_pair B h n keys edges le trees filled idx (fk 0) inside left right t under
          (omega arith) in
      (
        with_pair internal n keys edges idx (fk 0) left right,
        refl,
        (
          with_pair-IsLoose B h n keys edges le trees filled idx (fk 0) inside left right of_left
              of_right (omega arith) (omega arith),
          inorder-with_pair B h n keys edges le trees filled idx (fk 0) inside left right
              (ap₂ (λ x y. for_all x ++ (keys idx ∷ for_all y)) (sym ec) (sym es) ∙ order),
          omega arith,
          room_at B t (with_pair internal n keys edges idx (fk 0) left right) idx left here
              (edge-with_pair-left B h n keys edges le trees filled idx (fk 0) inside left right)
              (omega arith),
        ),
      )

  -- The sibling before the child: `idx` is its index.
  pub borrow_from_left_lem :
      (s c : Node)
      → s ≡ edges idx
      → c ≡ edges (suc idx)
      → (suc idx < n → t ≤ keys (suc idx))
      → ((j : ℕ) → j < suc idx → keys j < t)
      → count c ≡ B - 1
      → B ≤ count s
      → (p : Node) × (borrow_from_left internal n keys edges idx s c ≡ some p)
        × IsRefilled B h t all_keys n p
  unfolding borrow_from_left count prefixed without_last with_pair
  borrow_from_left_lem null c es ec over under few many = absurd (omega arith)
  borrow_from_left_lem (node type m ks e) null es ec over under few many = absurd (omega arith)
  borrow_from_left_lem (node beside l fk fe) (node type m ks e) es ec over under few many =
      let of_child = subst (IsTree Any B h) (sym ec) (trees (suc idx) (omega arith)) in
      let of_sibling = subst (IsTree Any B h) (sym es) (trees idx (omega arith)) in
      let (of_right, of_left, order) =
        borrowed_left B h type m ks e (keys idx) beside l fk fe of_child of_sibling (omega arith)
          (omega arith) in
      let left = without_last type beside l fk fe in
      let right = prefixed type m ks e (keys idx) (fe l) in
      let last : ℕ = fk (l - 1) in
      let down = separator-above n idx keys (below internal edges) inside asc last (
        held edges idx (node beside l fk fe) es last (
          has_key-key beside l fk fe (l - 1) (omega arith)
            (IsWalked-of_IsTree B h beside l fk fe of_sibling))) in
      let here =
        index_in_after B h n keys edges le trees filled idx last inside left right t under
          (under_last (under idx (omega arith)) down) over in
      (
        with_pair internal n keys edges idx last left right,
        refl,
        (
          with_pair-IsLoose B h n keys edges le trees filled idx last inside left right of_left
              of_right (omega arith) (omega arith),
          inorder-with_pair B h n keys edges le trees filled idx last inside left right
              (ap₂ (λ x y. for_all x ++ (keys idx ∷ for_all y)) (sym es) (sym ec) ∙ order),
          omega arith,
          room_at B t (with_pair internal n keys edges idx last left right) (suc idx) right here
              (edge-with_pair-right B h n keys edges le trees filled idx last inside left right)
              (omega arith),
        ),
      )
    where
      under_last : {a b c : ℕ} → a < c → b < a → b < c
      under_last x y = omega arith
