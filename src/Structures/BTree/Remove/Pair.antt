-- ===== src/Structures/BTree/Remove/Pair.antt =====
-- A node of data-structure/04-btree/include/btree.hpp around one of its keys and the edges on both
-- sides of it, where borrow_from_right, borrow_from_left and merge_children change it.
use snu_projects.Base.{
  ℕ, suc, ◌+◌, ◌-◌, ◌≤◌, ◌<◌, ◌≡◌, ◌≢◌, sym, ap, subst, ◌∙◌, List, ◌∷◌, ◌++◌, arith, ltb, ◌==◌,
  if◌then◌else◌, inl, inr, Bool-cases, eq_of_==,
}
use snu_projects.Structures.BTree.{internal, Node, rest_from, assign, move_range}
use snu_projects.Structures.BTree.Remove.{closed_keys, closed_edges}
use snu_projects.Structures.BTree.Cut.{around, rest_from_opened, rest_from-around}

-- The arrays without the key at `idx` and what stands before it.
abbrev closed {ℓ} : {A : Type ℓ} → ℕ → (ℕ → A) → (ℕ → A)
closed idx a j = if ltb j idx then a j else a (suc j)

closed_before {ℓ} : {A : Type ℓ} (idx : ℕ) (a : ℕ → A) (j : ℕ) → j < idx → a j ≡ closed idx a j
closed_before idx a j lt = ground arith

closed_after {ℓ} : {A : Type ℓ} (idx : ℕ) (a : ℕ → A) (j : ℕ) → idx ≤ j → a (suc j) ≡ closed idx a j
closed_after idx a j ge = ground arith

module _ (n idx : ℕ) (lt : idx < n) where
  -- The keys of a node in which only one key and the subtrees beside it change.
  pub rest_from-pair :
      (k k' : ℕ → ℕ) (s s' : ℕ → List ℕ)
      → ((j : ℕ) → j ≢ idx → k' j ≡ k j)
      → ((j : ℕ) → j ≢ idx → j ≢ suc idx → s' j ≡ s j)
      → s idx ++ (k idx ∷ s (suc idx)) ≡ s' idx ++ (k' idx ∷ s' (suc idx))
      → rest_from 0 n k' s' ≡ rest_from 0 n k s
  rest_from-pair k k' s s' hk hs same =
      ap (λ x. rest_from 0 x k' s') {y = suc (n - 1)} (omega arith)
      ∙ rest_from_opened idx (n - 1 - idx) (n - 1) (omega arith) (closed idx k) (closed idx s) k' s'
          (λ j lt. hk j (omega arith) ∙ closed_before idx k j lt)
          (λ j ge le. hk (suc j) (omega arith) ∙ closed_after idx k j ge)
          (λ j lt. hs j (omega arith) (omega arith) ∙ closed_before idx s j lt)
          (λ j gt le. hs (suc j) (omega arith) (omega arith) ∙ closed_after idx s j (omega arith))
      ∙ ap (around idx (n - 1 - idx) (closed idx k) (closed idx s)) (sym same)
      ∙ sym (
          rest_from_opened idx (n - 1 - idx) (n - 1) (omega arith) (closed idx k) (closed idx s) k s
            (λ j lt. closed_before idx k j lt) (λ j ge le. closed_after idx k j ge)
            (λ j lt. closed_before idx s j lt) (λ j gt le. closed_after idx s j (omega arith)))
      ∙ ap (λ x. rest_from 0 x k s) {x = suc (n - 1)} (omega arith)

  -- The keys of a node that loses a key, its subtrees joined.
  pub rest_from_closed :
      (k k' : ℕ → ℕ) (s s' : ℕ → List ℕ)
      → ((j : ℕ) → j < idx → k j ≡ k' j)
      → ((j : ℕ) → idx ≤ j → j < n - 1 → k (suc j) ≡ k' j)
      → ((j : ℕ) → j < idx → s j ≡ s' j)
      → ((j : ℕ) → idx < j → j ≤ n - 1 → s (suc j) ≡ s' j)
      → s' idx ≡ s idx ++ (k idx ∷ s (suc idx))
      → rest_from 0 (n - 1) k' s' ≡ rest_from 0 n k s
  rest_from_closed k k' s s' k_before k_after s_before s_after same =
      rest_from-around idx (n - 1 - idx) (n - 1) (omega arith) k' s'
      ∙ ap (around idx (n - 1 - idx) k' s') same
      ∙ sym (
          rest_from_opened idx (n - 1 - idx) (n - 1) (omega arith) k' s' k s k_before k_after
            s_before s_after)
      ∙ ap (λ x. rest_from 0 x k s) {x = suc (n - 1)} (omega arith)

  module _ (edges : ℕ → Node) (left right : Node) where
    abbrev paired : ℕ → Node
    paired = assign (assign edges idx left) (idx + 1) right

    pub paired-left : paired idx ≡ left
    unfolding assign
    paired-left = ground arith

    pub paired-right : paired (suc idx) ≡ right
    unfolding assign
    paired-right = ground arith

    pub paired_other : (j : ℕ) → j ≢ idx → j ≢ suc idx → paired j ≡ edges j
    unfolding assign
    paired_other j ne ne' = ground arith

    pub paired_all :
        (Q : Node → Type 0)
        → ((j : ℕ) → j ≤ n → Q (edges j))
        → Q left
        → Q right
        → (j : ℕ) → j ≤ n
        → Q (paired j)
    paired_all Q each of_left of_right j le = elim (Bool-cases (j == idx)) [
      | inl e ↦ subst Q (sym (ap paired (eq_of_== j idx e) ∙ paired-left)) of_left
      | inr ne ↦ elim (Bool-cases (j == suc idx)) [
        | inl e ↦ subst Q (sym (ap paired (eq_of_== j (suc idx) e) ∙ paired-right)) of_right
        | inr ne' ↦ subst Q (sym (paired_other j (ground arith) (ground arith))) (each j le)
      ]
    ]

  module _ (keys : ℕ → ℕ) (edges : ℕ → Node) (joint : Node) where
    pub closed_keys_before : (j : ℕ) → j < idx → keys j ≡ closed_keys internal n keys edges idx j
    unfolding closed_keys assign move_range
    closed_keys_before j less = ground arith

    pub closed_keys_after :
        (j : ℕ) → idx ≤ j → j < n - 1 → keys (suc j) ≡ closed_keys internal n keys edges idx j
    unfolding closed_keys assign move_range
    closed_keys_after j ge lt = ground arith

    pub closed_edges_before :
        (j : ℕ) → j < idx → edges j ≡ closed_edges internal n keys edges idx joint j
    unfolding closed_edges assign move_range
    closed_edges_before j less = ground arith

    pub closed_edges_here : closed_edges internal n keys edges idx joint idx ≡ joint
    unfolding closed_edges assign
    closed_edges_here = ground arith

    pub closed_edges_after :
        (j : ℕ)
        → idx < j
        → j ≤ n - 1
        → edges (suc j) ≡ closed_edges internal n keys edges idx joint j
    unfolding closed_edges assign move_range
    closed_edges_after j gt le = ground arith

    pub closed_edges_all :
        (Q : Node → Type 0)
        → ((j : ℕ) → j ≤ n → Q (edges j))
        → Q joint
        → (j : ℕ) → j ≤ n - 1
        → Q (closed_edges internal n keys edges idx joint j)
    closed_edges_all Q each of_joint j le = elim (Bool-cases (j == idx)) [
      | inl e ↦
          subst Q
            (sym (
              ap (closed_edges internal n keys edges idx joint) (eq_of_== j idx e)
              ∙ closed_edges_here))
            of_joint
      | inr ne ↦ elim (Bool-cases (ltb j idx)) [
        | inl lt ↦ subst Q (closed_edges_before j (ground arith)) (each j (omega arith))
        | inr ge ↦ subst Q (closed_edges_after j (ground arith) le) (each (suc j) (omega arith))
      ]
    ]
