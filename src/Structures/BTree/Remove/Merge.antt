-- ===== src/Structures/BTree/Remove/Merge.antt =====
-- merge_children of data-structure/04-btree/include/btree.hpp, and the refilling of a child, which
-- borrows from a sibling or else merges.
use snu_projects.Base.{
  ℕ, suc, ◌+◌, ◌-◌, ◌*◌, ◌≤◌, ◌<◌, ◌≡◌, ◌≢◌, refl, sym, ap, ap₂, subst, ◌∙◌, List, ◌∷◌, ◌++◌, arith,
  ltb, ◌==◌, ◌&&◌, true, false, inl, inr, Bool-cases, eq_of_==, ne_of_==, some,
}
use snu_projects.Structures.Keys.{IsAscending}
use snu_projects.Structures.BTree.{
  internal, Node, null, node, for_all, rest_from, count, edge, get_index,
}
use snu_projects.Structures.BTree.Insert.{index_in}
use snu_projects.Structures.BTree.Remove.{
  merge_at, merge_children, closed_keys, closed_edges, joined, refill,
}
use snu_projects.Structures.BTree.Shape.{IsTree, below}
use snu_projects.Structures.BTree.Sides.{get_index-le, get_index-below, get_index-above}
use snu_projects.Structures.BTree.Remove.Siblings.{Any, merged}
use snu_projects.Structures.BTree.Remove.Pair.{
  rest_from_closed, closed_keys_before, closed_keys_after, closed_edges_before, closed_edges_here,
  closed_edges_after, closed_edges_all,
}
use snu_projects.Structures.BTree.Remove.Refill.{
  loose_inner, inorder, IsRefilled, get_index_unique, separator-above, separator-below, has_key-key,
}
use snu_projects.Structures.BTree.Remove.Borrow.{borrow_from_right_lem, borrow_from_left_lem}
use snu_projects.Structures.BTree.Remove.WithPair.{IsWalked-of_IsTree, held, room_at}

module _ (B h n : ℕ) (two : 2 ≤ B) (keys : ℕ → ℕ) (edges : ℕ → Node) (le : n ≤ 2 * B - 1)
    (trees : (j : ℕ) → j ≤ n → IsTree Any B h (edges j))
    (filled : (j : ℕ) → j ≤ n → B - 1 ≤ count (edges j))
    (asc : IsAscending (rest_from 0 n keys (below internal edges))) (t : ℕ) where
  abbrev all_keys : List ℕ
  all_keys = rest_from 0 n keys (below internal edges)

  module _ (idx : ℕ) (inside : idx < n) (joint : Node) where
    abbrev closed_node : Node
    closed_node =
        node internal (n - 1) (closed_keys internal n keys edges idx)
          (closed_edges internal n keys edges idx joint)

    inorder_closed :
        for_all joint ≡ for_all (edges idx) ++ (keys idx ∷ for_all (edges (suc idx)))
        → inorder closed_node ≡ all_keys
    unfolding inorder below
    inorder_closed same =
        rest_from_closed n idx inside keys (closed_keys internal n keys edges idx)
          (below internal edges) (below internal (closed_edges internal n keys edges idx joint))
          (closed_keys_before n idx inside keys edges joint)
          (closed_keys_after n idx inside keys edges joint)
          (λ j lt. ap for_all (closed_edges_before n idx inside keys edges joint j lt))
          (λ j gt le. ap for_all (closed_edges_after n idx inside keys edges joint j gt le))
          (ap for_all (closed_edges_here n idx inside keys edges joint) ∙ same)

    index_in_closed :
        ((j : ℕ) → j < idx → keys j < t)
        → (suc idx < n → t ≤ keys (suc idx))
        → index_in closed_node t ≡ idx
    unfolding index_in
    index_in_closed under over =
        get_index_unique (n - 1) (closed_keys internal n keys edges idx) t idx (omega arith)
          (λ j lt.
            subst (λ x. x < t) (closed_keys_before n idx inside keys edges joint j lt) (under j lt))
          (λ lt.
            subst (λ x. t ≤ x)
              (closed_keys_after n idx inside keys edges joint idx (omega arith) lt)
              (over (omega arith)))

    edge_closed : edge closed_node idx ≡ joint
    unfolding edge
    edge_closed = closed_edges_here n idx inside keys edges joint

  merge_at_lem :
      (idx : ℕ)
      → idx < n
      → (c s : Node) → c ≡ edges idx
      → s ≡ edges (suc idx)
      → ((j : ℕ) → j < idx → keys j < t)
      → (suc idx < n → t ≤ keys idx)
      → count c ≡ B - 1
      → count s ≡ B - 1
      → (p : Node) × (merge_at internal n keys edges idx c s ≡ some p)
        × IsRefilled B h t all_keys n p
  unfolding merge_at count joined
  merge_at_lem idx inside null s ec es under over few few' = absurd (omega arith)
  merge_at_lem idx inside (node type m ks e) null ec es under over few few' = absurd (omega arith)
  merge_at_lem idx inside (node type m ks e) (node beside l fk fe) ec es under over few few' =
      let of_child = subst (IsTree Any B h) (sym ec) (trees idx (omega arith)) in
      let of_sibling = subst (IsTree Any B h) (sym es) (trees (suc idx) (omega arith)) in
      let joint = joined type m ks e (keys idx) l fk fe in
      let (of_joint, order) =
        merged B h type m ks e (keys idx) beside l fk fe of_child of_sibling (omega arith) in
      let first = held edges (suc idx) (node beside l fk fe) es (fk 0) (
        has_key-key beside l fk fe 0 (omega arith)
          (IsWalked-of_IsTree B h beside l fk fe of_sibling)) in
      let low = separator-below n idx keys (below internal edges) inside asc (fk 0) first in
      let here = index_in_closed idx inside joint under (λ lt.
        between (over lt) low
          (separator-above n (suc idx) keys (below internal edges) lt asc (fk 0) first)) in
      (
        closed_node idx inside joint,
        refl,
        (
          loose_inner h (n - 1) _ _ (omega arith)
              (closed_edges_all n idx inside keys edges joint (IsTree Any B h) trees of_joint)
              (closed_edges_all n idx inside keys edges joint (λ c. B - 1 ≤ count c) filled
                (omega arith)),
          inorder_closed idx inside joint
              (order ∙ ap₂ (λ x y. for_all x ++ (keys idx ∷ for_all y)) ec es),
          omega arith,
          room_at B t (closed_node idx inside joint) idx joint here (edge_closed idx inside joint)
              (omega arith),
        ),
      )
    where
      between : {a b c d : ℕ} → a ≤ b → b < c → c < d → a ≤ d
      between x y z = omega arith

  abbrev e : ℕ
  e = get_index n keys t

  in_range : e ≤ n
  in_range = get_index-le n keys t

  merge_children_lem :
      0 < n
      → count (edges e) ≡ B - 1
      → (e < n → count (edges (suc e)) ≡ B - 1)
      → (0 < e → count (edges (e - 1)) ≡ B - 1)
      → (p : Node) × (merge_children internal n keys edges e ≡ some p)
        × IsRefilled B h t all_keys n p
  unfolding merge_children
  merge_children_lem pos few right left = elim (Bool-cases (e == n)) [
    | inl last ↦
        let at_end = eq_of_== e n last in
        rw last (
          merge_at_lem (e - 1) (omega (arith, in_range)) (edges (e - 1)) (edges (e - 1 + 1)) refl
            (ap edges (omega arith)) (λ j lt. get_index-below n keys t j (omega arith))
            (λ lt. absurd (omega arith)) (left (omega arith))
            (ap (λ i. count (edges i)) {y = e} (omega arith) ∙ few))
    | inr inner_edge ↦
        let off = ne_of_== e n inner_edge in
        let lt = below_end e in_range off in
        rw inner_edge (
          merge_at_lem e lt (edges e) (edges (e + 1)) refl (ap edges (omega arith))
            (get_index-below n keys t) (λ below. get_index-above n keys t lt) few
            (ap (λ i. count (edges i)) {y = suc e} (omega arith) ∙ right lt))
  ]
    where
      below_end : (i : ℕ) → i ≤ n → i ≢ n → i < n
      below_end i le ne = omega arith

  -- In a node with ascending keys, at least one of its own, whose children are trees of one height
  -- with B - 1 keys at least (for B of at least 2), refilling the child that get_index points to, if
  -- that has B - 1 keys at most, succeeds, whether it borrows from the right, from the left or
  -- merges: the keys in order stay, the node loses one key of its own at most, and the child that
  -- get_index then points to has B keys at least.
  pub refill_lem :
      0 < n
      → count (edges e) ≤ B - 1
      → (p : Node) × (refill internal n keys edges B e ≡ some p) × IsRefilled B h t all_keys n p
  unfolding refill
  refill_lem pos few = elim (Bool-cases (ltb e n && ltb (B - 1) (count (edges (e + 1))))) [
    | inl can ↦
        let (lt, many) = both e n (count (edges (e + 1))) can in
        rw can (
          borrow_from_right_lem B h n two keys edges le trees filled asc t e lt (edges e)
            (edges (e + 1)) refl (ap edges (omega arith)) refl (get_index-above n keys t lt)
            (get_index-below n keys t) few_exactly many)
    | inr cannot ↦ elim (Bool-cases (ltb 0 e && ltb (B - 1) (count (edges (e - 1))))) [
      | inl can ↦
          let (lt, many) = both 0 e (count (edges (e - 1))) can in
          let step : e ≡ suc (e - 1) = omega arith in
          rw (cannot, can)
            (borrow_from_left_lem B h n two keys edges le trees filled asc t (e - 1)
              (omega (arith, in_range)) (edges (e - 1)) (edges e) refl (ap edges step)
              (λ lt. subst (λ i. t ≤ keys i) step (get_index-above n keys t (omega arith)))
              (λ j lt. get_index-below n keys t j (omega arith)) few_exactly many)
      | inr cannot' ↦
          rw (cannot, cannot')
            (merge_children_lem pos few_exactly
              (λ lt. exactly (count (edges (suc e))) (filled (suc e) lt) (
                neither e n (count (edges (suc e))) lt (
                  ap (λ i. ltb e n && ltb (B - 1) (count (edges i))) {y = e + 1} (omega arith)
                  ∙ cannot)))
              (λ lt.
                exactly (count (edges (e - 1))) (filled (e - 1) (omega (arith, in_range)))
                  (neither 0 e (count (edges (e - 1))) lt cannot')))
    ]
  ]
    where
      exactly : (c : ℕ) → B - 1 ≤ c → c ≤ B - 1 → c ≡ B - 1
      exactly c x y = omega arith

      few_exactly : count (edges e) ≡ B - 1
      few_exactly = exactly (count (edges e)) (filled e in_range) few

      both : (a b c : ℕ) → (ltb a b && ltb (B - 1) c) ≡ true → (a < b) × (B ≤ c)
      both a b c can = ground arith

      neither : (a b c : ℕ) → a < b → (ltb a b && ltb (B - 1) c) ≡ false → c ≤ B - 1
      neither a b c lt cannot = ground arith
