-- ===== src/Structures/BTree/Remove/WithPair.antt =====
-- A node of data-structure/04-btree/include/btree.hpp of whose keys one is replaced, with the
-- subtrees beside it.
use snu_projects.Base.{
  ℕ, suc, ◌+◌, ◌-◌, ◌*◌, ◌≤◌, ◌<◌, ◌≡◌, ◌≢◌, sym, ap, ap₂, subst, ◌∙◌, ◌∷◌, ◌++◌, arith, ◌==◌, true,
  inl, inr, Bool-cases,
}
use snu_projects.Structures.Keys.{has_key}
use snu_projects.Structures.BTree.{
  NodeType, internal, Node, node, for_all, rest_from, count, edge, assign,
}
use snu_projects.Structures.BTree.Insert.{index_in}
use snu_projects.Structures.BTree.Remove.{with_pair}
use snu_projects.Structures.BTree.Shape.{IsTree, leaves, inner, below, IsWalked}
use snu_projects.Structures.BTree.Remove.Siblings.{Any}
use snu_projects.Structures.BTree.Insert.Opened.{below-at}
use snu_projects.Structures.BTree.Remove.Pair.{
  rest_from-pair, paired-left, paired-right, paired_other, paired_all,
}
use snu_projects.Structures.BTree.Remove.Refill.{IsLoose, loose_inner, inorder, get_index_unique}

pub IsWalked-of_IsTree :
    (B h : ℕ) (type : NodeType) (n : ℕ) (keys : ℕ → ℕ) (edges : ℕ → Node)
    → IsTree Any B h (node type n keys edges)
    → IsWalked type n
IsWalked-of_IsTree B h type n keys edges (leaves _ _ _ le stale) = tt
IsWalked-of_IsTree B h type n keys edges (inner _ _ _ _ pos le trees filled) = pos

pub assign-at : (keys : ℕ → ℕ) (idx key : ℕ) → assign keys idx key idx ≡ key
unfolding assign
assign-at keys idx key = ground arith

pub assign_same : (keys : ℕ → ℕ) (idx key j : ℕ) → j ≢ idx → assign keys idx key j ≡ keys j
unfolding assign
assign_same keys idx key j ne = ground arith

pub held :
    (edges : ℕ → Node) (j : ℕ) (c : Node)
    → c ≡ edges j
    → (x : ℕ) → has_key x (for_all c) ≡ true
    → has_key x (below internal edges j) ≡ true
held edges j c e x h = ap (has_key x) (sym (below-at edges j c e)) ∙ h

pub room_at :
    (B t : ℕ) (p : Node) (i : ℕ) (c : Node)
    → index_in p t ≡ i
    → edge p i ≡ c
    → B ≤ count c
    → B ≤ count (edge p (index_in p t))
room_at B t p i c at here many = rw (at, here) (many)

-- A node of whose keys one is replaced, with the subtrees beside it.
module _ (B h n : ℕ) (keys : ℕ → ℕ) (edges : ℕ → Node) (le : n ≤ 2 * B - 1)
    (trees : (j : ℕ) → j ≤ n → IsTree Any B h (edges j))
    (filled : (j : ℕ) → j ≤ n → B - 1 ≤ count (edges j)) (idx key : ℕ) (inside : idx < n)
    (left right : Node) where
  pub with_pair-IsLoose :
      IsTree Any B h left
      → IsTree Any B h right
      → B - 1 ≤ count left
      → B - 1 ≤ count right
      → IsLoose B (suc h) (with_pair internal n keys edges idx key left right)
  unfolding with_pair
  with_pair-IsLoose of_left of_right many_left many_right =
      loose_inner h n _ _ le
        (paired_all n idx inside edges left right (IsTree Any B h) trees of_left of_right)
        (paired_all n idx inside edges left right (λ c. B - 1 ≤ count c) filled many_left
          many_right)

  pub inorder-with_pair :
      for_all (edges idx) ++ (keys idx ∷ for_all (edges (suc idx)))
        ≡ for_all left ++ (key ∷ for_all right)
      → inorder (with_pair internal n keys edges idx key left right)
        ≡ rest_from 0 n keys (below internal edges)
  unfolding with_pair inorder below
  inorder-with_pair same =
      rest_from-pair n idx inside keys (assign keys idx key) (below internal edges)
        (below internal (assign (assign edges idx left) (idx + 1) right)) other_key other_edges
        around_key
    where
      other_key : (j : ℕ) → j ≢ idx → assign keys idx key j ≡ keys j
      other_key j ne = assign_same keys idx key j ne

      other_edges :
          (j : ℕ)
          → j ≢ idx
          → j ≢ suc idx
          → below internal (assign (assign edges idx left) (idx + 1) right) j
            ≡ below internal edges j
      other_edges j ne ne' = ap for_all (paired_other n idx inside edges left right j ne ne')

      around_key :
          below internal edges idx ++ (keys idx ∷ below internal edges (suc idx))
          ≡ below internal (assign (assign edges idx left) (idx + 1) right) idx
            ++ (assign keys idx key idx
                ∷ below internal (assign (assign edges idx left) (idx + 1) right) (suc idx))
      around_key =
          same
          ∙ sym (
              ap₂ (λ l r. for_all l ++ (key ∷ for_all r))
                (paired-left n idx inside edges left right)
                (paired-right n idx inside edges left right))
          ∙ ap
              (λ x.
                below internal (assign (assign edges idx left) (idx + 1) right) idx
                ++ (x ∷ below internal (assign (assign edges idx left) (idx + 1) right) (suc idx)))
              (sym (assign-at keys idx key))

  pub index_in-with_pair :
      (t : ℕ)
      → ((j : ℕ) → j < idx → keys j < t)
      → t ≤ key
      → index_in (with_pair internal n keys edges idx key left right) t ≡ idx
  unfolding with_pair index_in assign
  index_in-with_pair t under over =
      get_index_unique n (assign keys idx key) t idx (omega arith)
        (λ j lt. subst (λ x. x < t) (ground arith) (under j lt)) (λ lt. ground arith)

  pub index_in_after :
      (t : ℕ)
      → ((j : ℕ) → j < suc idx → keys j < t)
      → key < t
      → (suc idx < n → t ≤ keys (suc idx))
      → index_in (with_pair internal n keys edges idx key left right) t ≡ suc idx
  unfolding with_pair index_in assign
  index_in_after t under low over =
      get_index_unique n (assign keys idx key) t (suc idx) (omega arith) (λ j lt. at_key j lt)
        (λ lt. subst (λ x. t ≤ x) {x = keys (suc idx)} (ground arith) (over lt))
    where
      at_key : (j : ℕ) → j < suc idx → assign keys idx key j < t
      at_key j lt = elim (Bool-cases (j == idx)) [ inl e ↦ rw e (low) | inr e ↦ rw e (under j lt) ]

  pub edge-with_pair-left : edge (with_pair internal n keys edges idx key left right) idx ≡ left
  unfolding with_pair edge
  edge-with_pair-left = paired-left n idx inside edges left right

  pub edge-with_pair-right :
      edge (with_pair internal n keys edges idx key left right) (suc idx) ≡ right
  unfolding with_pair edge
  edge-with_pair-right = paired-right n idx inside edges left right
