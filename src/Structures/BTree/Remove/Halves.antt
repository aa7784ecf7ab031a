-- ===== src/Structures/BTree/Remove/Halves.antt =====
-- borrow_from_right, borrow_from_left and merge_children of data-structure/04-btree/include/
-- btree.hpp: the keys of the child and of its sibling after each.
use snu_projects.Base.{
  ℕ, suc, ◌+◌, ◌-◌, ◌≤◌, ◌<◌, ◌≡◌, refl, sym, ap, ap₂, ◌∙◌, List, ◌∷◌, ◌++◌, arith,
}
use snu_projects.Structures.BTree.{
  NodeType, leaf, internal, Node, for_all, rest_from, assign, move_range,
}
use snu_projects.Structures.BTree.Remove.{
  gained_last, lost_first, gained_first, lost_last, joined_edges, extended, without_first, prefixed,
  without_last, joined,
}
use snu_projects.Structures.BTree.Order.{rest_from_shift}
use snu_projects.Structures.BTree.Shape.{below, IsWalked, for_all-rest}
use snu_projects.Structures.BTree.Insert.Split.{rest_from_cut}

-- Two nodes that agree below `n`.
pub rest_from_same :
    (n : ℕ) (k k' : ℕ → ℕ) (s s' : ℕ → List ℕ)
    → ((j : ℕ) → j < n → k j ≡ k' j)
    → ((j : ℕ) → j ≤ n → s j ≡ s' j)
    → rest_from 0 n k s ≡ rest_from 0 n k' s'
rest_from_same n k k' s s' hk hs =
    rest_from_shift 0 0 0 n k k' s s' (omega arith)
      (λ j j' e ge lt. hk j (omega arith) ∙ ap k' (omega arith))
      (λ j j' e ge le. hs j (omega arith) ∙ ap s' (omega arith))

-- A node without its first key and subtree.
rest_from_next :
    (n m : ℕ) (k k' : ℕ → ℕ) (s s' : ℕ → List ℕ)
    → n ≡ suc m
    → ((j : ℕ) → j < m → k' j ≡ k (suc j))
    → ((j : ℕ) → j ≤ m → s' j ≡ s (suc j))
    → rest_from 0 n k s ≡ s 0 ++ (k 0 ∷ rest_from 0 m k' s')
unfolding rest_from
rest_from_next n m k k' s s' e hk hs =
    ap (λ x. rest_from 0 x k s) {y = suc m} e
    ∙ ap (λ l. s 0 ++ (k 0 ∷ l))
        (sym (
          rest_from_shift 1 0 1 m k' k s' s (omega arith)
            (λ j j' e ge lt. hk j (omega arith) ∙ ap k (omega arith))
            (λ j j' e ge le. hs j (omega arith) ∙ ap s (omega arith))))

IsWalked-suc : (type : NodeType) (n : ℕ) → 0 < n → IsWalked type n
IsWalked-suc leaf n pos = tt
IsWalked-suc internal n pos = pos

-- The subtrees' keys below moved edges: a leaf has none, an internal node's are read off.
edge-eq :
    (edges edges' : ℕ → Node) (i j : ℕ)
    → edges i ≡ edges' j
    → for_all (edges i) ≡ for_all (edges' j)
edge-eq edges edges' i j e = ap for_all e

module _ (n : ℕ) (edges : ℕ → Node) where
  gained_last_old :
      (type : NodeType) (from : ℕ → Node) (j : ℕ)
      → j ≤ n
      → below type (gained_last type n edges from) j ≡ below type edges j
  unfolding below gained_last assign
  gained_last_old leaf from j le = refl
  gained_last_old internal from j le =
      edge-eq (gained_last internal n edges from) edges j j (ground arith)

  gained_last_new :
      (type : NodeType) (from : ℕ → Node)
      → below type (gained_last type n edges from) (suc n) ≡ below type from 0
  unfolding below gained_last assign
  gained_last_new leaf from = refl
  gained_last_new internal from =
      edge-eq (gained_last internal n edges from) from (suc n) 0 (ground arith)

  lost_first-lem :
      (type : NodeType) (j : ℕ)
      → suc j ≤ n
      → below type (lost_first type n edges) j ≡ below type edges (suc j)
  unfolding below lost_first assign move_range
  lost_first-lem leaf j le = refl
  lost_first-lem internal j le =
      edge-eq (lost_first internal n edges) edges j (suc j) (ground arith)

  gained_first_new :
      (type : NodeType) (from : ℕ → Node) (m : ℕ)
      → below type (gained_first type n edges (from m)) 0 ≡ below type from m
  unfolding below gained_first assign
  gained_first_new leaf from m = refl
  gained_first_new internal from m = refl

  gained_first_old :
      (type : NodeType) (from : Node) (j : ℕ)
      → j ≤ n
      → below type (gained_first type n edges from) (suc j) ≡ below type edges j
  unfolding below gained_first assign move_range
  gained_first_old leaf from j le = refl
  gained_first_old internal from j le =
      edge-eq (gained_first internal n edges from) edges (suc j) j (ground arith)

  lost_last-lem :
      (type : NodeType) (j : ℕ) → j < n → below type (lost_last type n edges) j ≡ below type edges j
  unfolding below lost_last assign
  lost_last-lem leaf j lt = refl
  lost_last-lem internal j lt = edge-eq (lost_last internal n edges) edges j j (ground arith)

  joined_edges_old :
      (type : NodeType) (m : ℕ) (from : ℕ → Node) (j : ℕ)
      → j ≤ n
      → below type (joined_edges type n edges m from) j ≡ below type edges j
  unfolding below joined_edges move_range
  joined_edges_old leaf m from j le = refl
  joined_edges_old internal m from j le =
      edge-eq (joined_edges internal n edges m from) edges j j (ground arith)

  joined_edges_new :
      (type : NodeType) (m : ℕ) (from : ℕ → Node) (j i : ℕ)
      → j ≤ m
      → i ≡ suc n + j
      → below type (joined_edges type n edges m from) i ≡ below type from j
  unfolding below joined_edges move_range
  joined_edges_new leaf m from j i le e = refl
  joined_edges_new internal m from j i le e =
      edge-eq (joined_edges internal n edges m from) from i j (ground arith)

-- In each of the next, `type` is that of the child and of its sibling.
module _ (type : NodeType) (n : ℕ) (keys : ℕ → ℕ) (edges : ℕ → Node) where
  pub extended_lem :
      (key : ℕ) (from : ℕ → Node)
      → for_all (extended type n keys edges key from)
        ≡ rest_from 0 n keys (below type edges) ++ (key ∷ below type from 0)
  unfolding extended assign rest_from
  extended_lem key from =
      for_all-rest type (n + 1) (assign keys n key) (gained_last type n edges from)
        (IsWalked-suc type (n + 1) (omega arith))
      ∙ rest_from_cut n 0 (n + 1) (assign keys n key) (below type (gained_last type n edges from))
          (omega arith)
      ∙ ap₂ (λ l r. l ++ r)
          (rest_from_same n (assign keys n key) keys (below type (gained_last type n edges from))
            (below type edges) (λ j lt. ground arith) (gained_last_old n edges type from))
          (ap₂ (λ x l. x ∷ l) {x = assign keys n key n} (ground arith)
            (gained_last_new n edges type from))

  pub without_first_lem :
      0 < n
      → IsWalked type (n - 1)
      → rest_from 0 n keys (below type edges)
        ≡ below type edges 0 ++ (keys 0 ∷ for_all (without_first type type n keys edges))
  unfolding without_first move_range
  without_first_lem pos walked =
      rest_from_next n (n - 1) keys (move_range keys 1 n keys 0) (below type edges)
        (below type (lost_first type n edges)) (omega arith) (λ j lt. ground arith)
        (λ j le. lost_first-lem n edges type j (omega arith))
      ∙ ap (λ l. below type edges 0 ++ (keys 0 ∷ l))
          (sym (
            for_all-rest type (n - 1) (move_range keys 1 n keys 0) (lost_first type n edges)
              walked))

  pub prefixed_lem :
      (key : ℕ) (from : ℕ → Node) (m : ℕ)
      → for_all (prefixed type n keys edges key (from m))
        ≡ below type from m ++ (key ∷ rest_from 0 n keys (below type edges))
  unfolding prefixed assign move_range
  prefixed_lem key from m =
      for_all-rest type (n + 1) (assign (move_range keys 0 n keys 1) 0 key)
        (gained_first type n edges (from m)) (IsWalked-suc type (n + 1) (omega arith))
      ∙ rest_from_next (n + 1) n (assign (move_range keys 0 n keys 1) 0 key) keys
          (below type (gained_first type n edges (from m))) (below type edges) (omega arith)
          (λ j lt. ground arith) (λ j le. sym (gained_first_old n edges type (from m) j le))
      ∙ ap (λ l. l ++ (key ∷ rest_from 0 n keys (below type edges)))
          (gained_first_new n edges type from m)

  pub without_last_lem :
      0 < n
      → IsWalked type (n - 1)
      → rest_from 0 n keys (below type edges)
        ≡ for_all (without_last type type n keys edges) ++ (keys (n - 1) ∷ below type edges n)
  unfolding without_last rest_from
  without_last_lem pos walked =
      rest_from_cut (n - 1) 0 n keys (below type edges) (omega arith)
      ∙ ap₂ (λ l r. l ++ (keys (n - 1) ∷ r))
          (rest_from_same (n - 1) keys keys (below type edges) (below type (lost_last type n edges))
              (λ j lt. refl) (λ j le. sym (lost_last-lem n edges type j (omega arith)))
            ∙ sym (for_all-rest type (n - 1) keys (lost_last type n edges) walked))
          (ap (below type edges) (omega arith))

  pub joined_lem :
      (key m : ℕ) (from_keys : ℕ → ℕ) (from_edges : ℕ → Node)
      → for_all (joined type n keys edges key m from_keys from_edges)
        ≡ rest_from 0 n keys (below type edges)
          ++ (key ∷ rest_from 0 m from_keys (below type from_edges))
  unfolding joined assign move_range
  joined_lem key m from_keys from_edges =
      for_all-rest type (n + (1 + m)) joined_keys (joined_edges type n edges m from_edges)
        (IsWalked-suc type (n + (1 + m)) (omega arith))
      ∙ rest_from_cut n m (n + (1 + m)) joined_keys
          (below type (joined_edges type n edges m from_edges)) (omega arith)
      ∙ ap₂ (λ l r. l ++ r)
          (rest_from_same n joined_keys keys (below type (joined_edges type n edges m from_edges))
            (below type edges) (λ j lt. ground arith) (joined_edges_old n edges type m from_edges))
          (ap₂ (λ x l. x ∷ l) {x = joined_keys n} (ground arith)
            (sym (
              rest_from_shift (suc n) 0 (suc n) m from_keys joined_keys (below type from_edges)
                (below type (joined_edges type n edges m from_edges)) (omega arith)
                (λ j j' e ge lt. ground arith)
                (λ j j' e ge le.
                  sym (joined_edges_new n edges type m from_edges j j' (omega arith) e)))))
    where
      joined_keys : ℕ → ℕ
      joined_keys = move_range from_keys 0 m (assign keys n key) (n + 1)
