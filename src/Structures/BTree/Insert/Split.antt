-- ===== src/Structures/BTree/Insert/Split.antt =====
-- split_child of data-structure/04-btree/include/btree.hpp: the two halves of a full node.
use snu_projects.Base.{
  ℕ, zero, suc, ◌+◌, ◌-◌, ◌*◌, ◌≤◌, ◌<◌, ◌≡◌, refl, sym, ap, ap₂, subst, ◌∙◌, List, ◌∷◌, ◌++◌,
  arith, ltb, ◌==◌, true, inl, inr, Bool-cases, eq_of_==, ==-self,
}
use mathlib.Core.List.{append_assoc}
use snu_projects.Structures.Keys.{has_key}
use snu_projects.Structures.BTree.{
  keys_from, NodeType, leaf, internal, Node, node, for_all, rest_from, count, move_range, no_keys,
}
use snu_projects.Structures.BTree.Insert.{fill_n, taken_edges, kept_edges, new_child, old_child}
use snu_projects.Structures.BTree.Order.{span, rest_from-span, rest_from_shift}
use snu_projects.Structures.BTree.Shape.{IsTree, leaves, inner, below, IsWalked, for_all-rest}

pub has_key-slot :
    (i n : ℕ) (keys : ℕ → ℕ) (j : ℕ)
    → i ≤ j
    → j < i + n
    → has_key (keys j) (keys_from i n keys) ≡ true
unfolding keys_from
has_key-slot i zero keys j ge lt = ground arith
has_key-slot i (suc n) keys j ge lt = elim (Bool-cases (i == j)) [
  | inl e ↦ rw (eq_of_== i j e, ==-self (keys j)) (refl)
  | inr e ↦ rw (has_key-slot (suc i) n keys j (ground arith) (omega arith)) (ground arith)
]

-- A node cut at a key.
pub rest_from_cut :
    (a b n : ℕ) (k : ℕ → ℕ) (s : ℕ → List ℕ)
    → n ≡ a + suc b
    → rest_from 0 n k s ≡ rest_from 0 a k s ++ (k a ∷ rest_from (suc a) b k s)
unfolding rest_from
rest_from_cut a b n k s e =
    rest_from-span 0 a a n (suc b) k s e (omega arith)
    ∙ sym (append_assoc (span 0 a k s) (s a) (k a ∷ rest_from (suc a) b k s))
    ∙ ap (λ l. l ++ (k a ∷ rest_from (suc a) b k s))
        (sym (rest_from-span 0 a a a 0 k s (omega arith) (omega arith)))

module _ (B : ℕ) (two : 2 ≤ B) where
  kept_at : (edges : ℕ → Node) (i : ℕ) → i < B → kept_edges B internal edges i ≡ edges i
  unfolding kept_edges fill_n
  kept_at edges i lt = ground arith

  taken_at :
      (edges : ℕ → Node) (i j : ℕ) → j ≡ B + i → i < B → edges j ≡ taken_edges B internal edges i
  unfolding taken_edges move_range
  taken_at edges i j e lt = ground arith

  module _ (P : ℕ → Type 0) (at_zero : P 0) where
    past : (keys : ℕ → ℕ) (i : ℕ) → B - 1 ≤ i → 0 ≡ move_range keys B (2 * B - 1) no_keys 0 i
    unfolding move_range
    past keys i ge = ground arith

    emptied :
        (keys : ℕ → ℕ)
        → ((j : ℕ) → j < 2 * B - 1 → P (keys j))
        → (i : ℕ) → B - 1 ≤ i
        → i < 2 * B - 1
        → P (fill_n keys (B - 1) (B - 1) 0 i)
    unfolding fill_n
    emptied keys mine i ge lt = elim (Bool-cases (ltb i (B - 1 + (B - 1)))) [
      | inl e ↦ subst P (ground arith) at_zero
      | inr e ↦ subst P (ground arith) (mine i lt)
    ]

    pub old_child-IsTree :
        (h : ℕ) (type : NodeType) (n : ℕ) (keys : ℕ → ℕ) (edges : ℕ → Node)
        → n ≡ 2 * B - 1
        → ((x : ℕ) → has_key x (for_all (node type n keys edges)) ≡ true → P x)
        → IsTree P B h (node type n keys edges)
        → IsTree P B h (old_child B type keys edges)
    unfolding old_child for_all
    old_child-IsTree h type n keys edges full mine (leaves _ _ _ le stale) =
        leaves (B - 1) _ _ (omega arith) (λ i ge lt.
          emptied keys (λ j lt. mine (keys j) (has_key-slot 0 n keys j (omega arith) (omega arith)))
            i ge lt)
    old_child-IsTree h type n keys edges full mine (inner h' _ _ _ pos le children filled) =
        inner h' (B - 1) _ _ (omega arith) (omega arith)
          (λ i le.
            subst (IsTree P B h') (sym (kept_at edges i (omega arith))) (children i (omega arith)))
          (λ i le.
            subst (λ c. B - 1 ≤ count c) (sym (kept_at edges i (omega arith)))
              (filled i (omega arith)))

    pub new_child-IsTree :
        (h : ℕ) (type : NodeType) (n : ℕ) (keys : ℕ → ℕ) (edges : ℕ → Node)
        → n ≡ 2 * B - 1
        → IsTree P B h (node type n keys edges)
        → IsTree P B h (new_child B type keys edges)
    unfolding new_child
    new_child-IsTree h type n keys edges full (leaves _ _ _ le stale) =
        leaves (B - 1) _ _ (omega arith) (λ i ge lt. subst P (past keys i ge) at_zero)
    new_child-IsTree h type n keys edges full (inner h' _ _ _ pos le children filled) =
        inner h' (B - 1) _ _ (omega arith) (omega arith)
          (λ i le.
            subst (IsTree P B h') (taken_at edges i (B + i) refl (omega arith))
              (children (B + i) (omega arith)))
          (λ i le.
            subst (λ c. B - 1 ≤ count c) (taken_at edges i (B + i) refl (omega arith))
              (filled (B + i) (omega arith)))

  IsWalked-pos : (type : NodeType) (n : ℕ) → 0 < n → IsWalked type n
  IsWalked-pos leaf n pos = tt
  IsWalked-pos internal n pos = pos

  kept_below :
      (type : NodeType) (edges : ℕ → Node) (i : ℕ)
      → i < B
      → below type edges i ≡ below type (kept_edges B type edges) i
  unfolding below
  kept_below leaf edges i lt = refl
  kept_below internal edges i lt = ap for_all (sym (kept_at edges i lt))

  taken_below :
      (type : NodeType) (edges : ℕ → Node) (i j : ℕ)
      → j ≡ B + i
      → i < B
      → below type (taken_edges B type edges) i ≡ below type edges j
  unfolding below
  taken_below leaf edges i j e lt = refl
  taken_below internal edges i j e lt = ap for_all (sym (taken_at edges i j e lt))

  -- The keys of a full node are those of the halves, with its middle key between them.
  pub for_all_halves :
      (type : NodeType) (n : ℕ) (keys : ℕ → ℕ) (edges : ℕ → Node)
      → n ≡ 2 * B - 1
      → for_all (node type n keys edges)
        ≡ for_all (old_child B type keys edges)
          ++ (keys (B - 1) ∷ for_all (new_child B type keys edges))
  unfolding old_child new_child fill_n move_range
  for_all_halves type n keys edges full =
      for_all-rest type n keys edges (IsWalked-pos type n (omega arith))
      ∙ rest_from_cut (B - 1) (B - 1) n keys (below type edges) (omega arith)
      ∙ ap₂ (λ l r. l ++ (keys (B - 1) ∷ r))
          (rest_from_shift 0 0 0 (B - 1) keys _ (below type edges) _ (omega arith)
              (λ j j' e ge lt. ground arith)
              (λ j j' e ge le.
                kept_below type edges j (omega arith)
                ∙ ap (below type (kept_edges B type edges)) (omega arith))
            ∙ sym (for_all-rest type (B - 1) _ _ (IsWalked-pos type (B - 1) (omega arith))))
          (sym (
              rest_from_shift B 0 (suc (B - 1)) (B - 1) _ keys _ (below type edges) (omega arith)
                (λ j j' e ge lt. ground arith)
                (λ j j' e ge le. taken_below type edges j j' e (omega arith)))
            ∙ sym (for_all-rest type (B - 1) _ _ (IsWalked-pos type (B - 1) (omega arith))))
