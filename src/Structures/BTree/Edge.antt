-- ===== src/Structures/BTree/Edge.antt =====
-- An internal node of data-structure/04-btree/include/btree.hpp and the subtree below the edge that
-- get_index points to: what the node's keys say of the subtree's, and the subtree replaced.
use snu_projects.Base.{
  ℕ, ◌-◌, ◌≤◌, ◌<◌, ◌≡◌, ◌≢◌, sym, ap, subst, ◌∙◌, arith, ◌==◌, true, inl, inr, Bool-cases,
  eq_of_==,
}
use snu_projects.Structures.Keys.{has_key, IsAscending}
use snu_projects.Structures.BTree.{internal, Node, node, for_all, rest_from, assign}
use snu_projects.Structures.BTree.Cut.{around, rest_from-around, rest_from_changed}
use snu_projects.Structures.BTree.Shape.{below, for_all-rest}
use snu_projects.Structures.BTree.Sides.{around-IsAscending}
use snu_projects.Structures.BTree.Separators.{has_key-inside}

module _ (edges : ℕ → Node) (idx : ℕ) (c : Node) where
  pub assign_here : assign edges idx c idx ≡ c
  unfolding assign
  assign_here = ground arith

  pub assign_other : (j : ℕ) → j ≢ idx → assign edges idx c j ≡ edges j
  unfolding assign
  assign_other j ne = ground arith

  pub assign_all :
      (Q : Node → Type 0) (n : ℕ)
      → ((j : ℕ) → j ≤ n → Q (edges j))
      → Q c
      → (j : ℕ) → j ≤ n
      → Q (assign edges idx c j)
  assign_all Q n each of_c j le = elim (Bool-cases (j == idx)) [
    | inl e ↦ subst Q (sym (ap (assign edges idx c) (eq_of_== j idx e) ∙ assign_here)) of_c
    | inr e ↦ subst Q (sym (assign_other j (ground arith))) (each j le)
  ]

-- The keys with another subtree below the edge, whether the node has keys or not.
pub rest_from-assign :
    (n : ℕ) (keys : ℕ → ℕ) (edges : ℕ → Node) (idx : ℕ)
    → idx ≤ n
    → (c : Node)
    → rest_from 0 n keys (below internal (assign edges idx c))
      ≡ around idx (n - idx) keys (below internal edges) (for_all c)
unfolding below
rest_from-assign n keys edges idx le c =
    rest_from_changed idx (n - idx) n (omega arith) keys (below internal edges)
      (below internal (assign edges idx c))
      (λ j lt. ap for_all (assign_other edges idx c j (omega arith)))
      (λ j gt le. ap for_all (assign_other edges idx c j (omega arith)))
    ∙ ap (λ d. around idx (n - idx) keys (below internal edges) (for_all d))
        (assign_here edges idx c)

module _ (n : ℕ) (keys : ℕ → ℕ) (edges : ℕ → Node) (pos : 0 < n) (idx : ℕ) (le : idx ≤ n) where
  pub for_all-around :
      for_all (node internal n keys edges)
      ≡ around idx (n - idx) keys (below internal edges) (for_all (edges idx))
  unfolding below
  for_all-around =
      for_all-rest internal n keys edges pos
      ∙ rest_from-around idx (n - idx) n (omega arith) keys (below internal edges)

  pub for_all-assign :
      (c : Node)
      → for_all (node internal n keys (assign edges idx c))
        ≡ around idx (n - idx) keys (below internal edges) (for_all c)
  unfolding below
  for_all-assign c =
      for_all-rest internal n keys (assign edges idx c) pos ∙ rest_from-assign n keys edges idx le c

  pub child-IsAscending :
      IsAscending (for_all (node internal n keys edges)) → IsAscending (for_all (edges idx))
  child-IsAscending asc =
      (around-IsAscending idx (n - idx) keys (below internal edges) (for_all (edges idx))
        (subst IsAscending for_all-around asc)).1

  pub has_key-child :
      (x : ℕ)
      → has_key x (for_all (edges idx)) ≡ true
      → has_key x (for_all (node internal n keys edges)) ≡ true
  has_key-child x h =
      ap (has_key x) for_all-around
      ∙ has_key-inside idx (n - idx) keys (below internal edges) x (for_all (edges idx)) h
