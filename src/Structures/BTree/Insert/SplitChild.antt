-- ===== src/Structures/BTree/Insert/SplitChild.antt =====
-- split_child of data-structure/04-btree/include/btree.hpp, seen from the parent.
use snu_projects.Base.{
  ◌∷◌, ◌++◌, ℕ, suc, ◌+◌, ◌-◌, ◌*◌, ◌≤◌, ◌<◌, ◌≡◌, refl, sym, ap, subst, ◌∙◌, List, arith, true,
  Option, none, some,
}
use snu_projects.Structures.Keys.{has_key}
use snu_projects.Structures.BTree.{
  NodeType, internal, Node, null, node, for_all, rest_from, count, get_index, edge,
}
use snu_projects.Structures.BTree.Insert.{
  new_child, old_child, index_in, opened_keys, opened_edges, split_full,
}
use snu_projects.Structures.BTree.Cut.{around, rest_from_opened, rest_from-around}
use snu_projects.Structures.BTree.Shape.{IsTree, inner, below, for_all-rest}
use snu_projects.Structures.BTree.Insert.Split.{old_child-IsTree, new_child-IsTree, for_all_halves}
use snu_projects.Structures.BTree.Insert.Opened.{
  opened_keys_before, opened_keys_after, opened_edges_before, opened_edges_after, opened_edges_half,
  opened_edges_all, below_opened, below-eq, below-at, get_index_opened,
}

-- What a split leaves in place of a parent: a tree of the same height, with the same keys, that has
-- room wherever the key that asked for it goes.
abbrev pub IsSplit : (ℕ → Type 0) → ℕ → ℕ → ℕ → List ℕ → Node → Type 0
IsSplit P B h n all p = IsTree P B (suc h) p × (for_all p ≡ all) × (count p ≡ suc n)

-- After a split the edge to follow leads to a node with room.
abbrev pub HasRoom : ℕ → ℕ → Option Node → Type 0
HasRoom B t none = Unit {0}
HasRoom B t (some p) = count (edge p (index_in p t)) ≡ B - 1

pub split_full-HasRoom :
    (B n : ℕ) (keys : ℕ → ℕ) (edges : ℕ → Node) (t idx : ℕ) (c : Node)
    → idx ≡ get_index n keys t
    → HasRoom B t (split_full B internal n keys edges idx c)
unfolding split_full edge index_in count old_child new_child
split_full-HasRoom B n keys edges t idx null e = tt
split_full-HasRoom B n keys edges t idx (node type m child_keys child_edges) e =
    opened_edges_half n edges idx (old_child B type child_keys child_edges)
      (new_child B type child_keys child_edges) (B - 1)
      (get_index (n + 1) (opened_keys n keys idx (child_keys (B - 1))) t)
      (count_old type child_keys child_edges) (count_new type child_keys child_edges)
      (get_index_opened n keys (child_keys (B - 1)) t idx e)
  where
    count_old :
        (type : NodeType) (ks : ℕ → ℕ) (es : ℕ → Node) → count (old_child B type ks es) ≡ B - 1
    count_old type ks es = refl

    count_new :
        (type : NodeType) (ks : ℕ → ℕ) (es : ℕ → Node) → count (new_child B type ks es) ≡ B - 1
    count_new type ks es = refl

-- The keys of the parent after the split, if those of the child are the halves' around the key.
for_all-opened :
    (n : ℕ) (keys : ℕ → ℕ) (edges : ℕ → Node) (idx t : ℕ) (old new : Node)
    → idx ≤ n
    → below internal edges idx ≡ for_all old ++ (t ∷ for_all new)
    → for_all (node internal (n + 1) (opened_keys n keys idx t) (opened_edges n edges idx old new))
      ≡ rest_from 0 n keys (below internal edges)
for_all-opened n keys edges idx t old new in_range parts =
    for_all-rest internal (n + 1) _ _ (omega arith)
    ∙ ap
        (λ x.
          rest_from 0 x (opened_keys n keys idx t)
            (below internal (opened_edges n edges idx old new)))
        (omega arith)
    ∙ rest_from_opened idx (n - idx) n (omega arith) keys (below internal edges)
        (opened_keys n keys idx t) (below internal (opened_edges n edges idx old new))
        (opened_keys_before n keys idx t) (opened_keys_after n keys idx t)
        (λ j lt. below-eq _ edges _ _ (opened_edges_before n edges idx old new j lt))
        (λ j gt le. below-eq _ edges _ _ (opened_edges_after n edges idx old new j gt le))
    ∙ ap (around idx (n - idx) keys (below internal edges))
        (below_opened n edges idx old new keys t ∙ sym parts)
    ∙ sym (rest_from-around idx (n - idx) n (omega arith) keys (below internal edges))

module _ (P : ℕ → Type 0) (at_zero : P 0) (B : ℕ) (two : 2 ≤ B) (h n : ℕ) (keys : ℕ → ℕ)
    (edges : ℕ → Node) (idx : ℕ) where
  abbrev all_keys : List ℕ
  all_keys = rest_from 0 n keys (below internal edges)

  count_old :
      (type : NodeType) (ks : ℕ → ℕ) (es : ℕ → Node) → B - 1 ≤ count (old_child B type ks es)
  unfolding count old_child
  count_old type ks es = omega arith

  count_new :
      (type : NodeType) (ks : ℕ → ℕ) (es : ℕ → Node) → B - 1 ≤ count (new_child B type ks es)
  unfolding count new_child
  count_new type ks es = omega arith

  -- Splitting a full child of a node that is not full (for B of at least 2; the node's children are
  -- trees of one height with B - 1 keys at least; P holds of T() and of the child's keys) succeeds:
  -- it gives a tree with one key more in the node, the same keys in order, and with P of every slot
  -- past a leaf's keys.
  pub split_full_lem :
      (c : Node)
      → c ≡ edges idx
      → idx ≤ n
      → n < 2 * B - 1
      → count c ≡ 2 * B - 1
      → ((j : ℕ) → j ≤ n → IsTree P B h (edges j))
      → ((j : ℕ) → j ≤ n → B - 1 ≤ count (edges j))
      → ((x : ℕ) → has_key x (for_all c) ≡ true → P x)
      → (p : Node) × (split_full B internal n keys edges idx c ≡ some p)
        × IsSplit P B h n all_keys p
  unfolding split_full count
  split_full_lem null e in_range room full trees filled mine = absurd (omega arith)
  split_full_lem (node type m child_keys child_edges) e in_range room full trees filled mine = (
    _,
    refl,
    (
      inner h (n + 1) _ _ (omega arith) (omega arith)
          (λ j le.
            opened_edges_all n edges idx old new (IsTree P B h) trees of_old of_new j (omega arith)
              in_range)
          (λ j le.
            opened_edges_all n edges idx old new (λ c. B - 1 ≤ count c) filled
              (count_old type child_keys child_edges) (count_new type child_keys child_edges) j
              (omega arith) in_range),
      for_all-opened n keys edges idx (child_keys (B - 1)) old new in_range
          (sym below_child ∙ for_all_halves B two type m child_keys child_edges full),
      omega arith,
    ),
  )
    where
      old : Node
      old = old_child B type child_keys child_edges

      new : Node
      new = new_child B type child_keys child_edges

      child_IsTree : IsTree P B h (node type m child_keys child_edges)
      child_IsTree = subst (IsTree P B h) (sym e) (trees idx in_range)

      of_old : IsTree P B h old
      of_old =
          old_child-IsTree B two P at_zero h type m child_keys child_edges full mine child_IsTree

      of_new : IsTree P B h new
      of_new = new_child-IsTree B two P at_zero h type m child_keys child_edges full child_IsTree

      below_child : for_all (node type m child_keys child_edges) ≡ below internal edges idx
      below_child = below-at edges idx _ e
