-- ===== src/Structures/BTree/Remove/Edge.antt =====
-- remove of data-structure/04-btree/include/btree.hpp at an internal node that holds the key, in a
-- child with a key to spare: below the edge of the key, or in the place of a key of the node.
use snu_projects.Base.{
  ℕ, suc, ◌-◌, ◌*◌, ◌≤◌, ◌<◌, ◌≡◌, ◌≢◌, refl, sym, ap, ap₂, subst, ◌∙◌, List, [], ◌∷◌, ◌++◌, arith,
  ltb, ◌==◌, ◌&&◌, true, false,
}
use snu_projects.Structures.Keys.{
  has_key, remove_key, IsAscending, IsAscending-split, remove_key-here,
}
use snu_projects.Structures.BTree.{
  leaf, internal, Node, node, for_all, rest_from, count, get_index, assign,
}
use snu_projects.Structures.BTree.Order.{span, tail_from, rest_from_shift}
use snu_projects.Structures.BTree.Cut.{around, rest_from-around, rest_from_changed}
use snu_projects.Structures.BTree.Shape.{IsTree, leaves, inner, below, for_all-rest}
use snu_projects.Structures.BTree.Sides.{
  get_index-le, get_index-below, get_index-above, around-IsAscending,
}
use snu_projects.Structures.BTree.Separators.{has_key-around, remove_key-around}
use snu_projects.Structures.BTree.Insert.Split.{rest_from_cut}
use snu_projects.Structures.BTree.Edge.{assign_all, assign_here, assign_other, rest_from-assign}
use snu_projects.Structures.BTree.Remove.Halves.{rest_from_same}
use snu_projects.Structures.BTree.Remove.Siblings.{Any}
use snu_projects.Structures.BTree.Remove.Refill.{IsLoose, loose_leaf, loose_inner, inorder}

pub tighten :
    (B h : ℕ) (p : Node) → 0 < count p → IsLoose B h p → IsTree Any B h p × (for_all p ≡ inorder p)
unfolding count inorder
tighten B h p pos (loose_leaf n keys edges le) =
    (leaves n keys edges le (λ i ge lt. tt), for_all-rest leaf n keys edges tt)
tighten B h p pos (loose_inner h' n keys edges le trees filled) =
    (inner h' n keys edges pos le trees filled, for_all-rest internal n keys edges pos)

-- The last key of a part moved to after it.
shuffle :
    (xs front : List ℕ) (r : ℕ) (ys : List ℕ)
    → (xs ++ (front ++ [])) ++ (r ∷ ys) ≡ (xs ++ ((front ++ (r ∷ [])) ++ [])) ++ ys
shuffle [] [] r ys = refl
shuffle [] (y ∷ front) r ys = ap (λ l. y ∷ l) (shuffle [] front r ys)
shuffle (x ∷ xs) front r ys = ap (λ l. x ∷ l) (shuffle xs front r ys)

module _ (B h n : ℕ) (two : 2 ≤ B) (keys : ℕ → ℕ) (edges : ℕ → Node) (le : n ≤ 2 * B - 1)
    (trees : (j : ℕ) → j ≤ n → IsTree Any B h (edges j))
    (filled : (j : ℕ) → j ≤ n → B - 1 ≤ count (edges j))
    (asc : IsAscending (rest_from 0 n keys (below internal edges))) (t : ℕ)
    (present : has_key t (rest_from 0 n keys (below internal edges)) ≡ true) where
  abbrev all_keys : List ℕ
  all_keys = rest_from 0 n keys (below internal edges)

  abbrev idx : ℕ
  idx = get_index n keys t

  in_range : idx ≤ n
  in_range = get_index-le n keys t

  cut : all_keys ≡ around idx (n - idx) keys (below internal edges) (for_all (edges idx))
  unfolding below
  cut = rest_from-around idx (n - idx) n (omega (arith, in_range)) keys (below internal edges)

  pub child-asc : IsAscending (for_all (edges idx))
  child-asc =
      (around-IsAscending idx (n - idx) keys (below internal edges) (for_all (edges idx))
        (subst IsAscending cut asc)).1

  -- The node with another subtree below the edge, and another key after it.
  pub changed_IsLoose :
      (keys' : ℕ → ℕ) (c : Node)
      → IsTree Any B h c
      → B - 1 ≤ count c
      → IsLoose B (suc h) (node internal n keys' (assign edges idx c))
  changed_IsLoose keys' c tree many =
      loose_inner h n _ _ le (assign_all edges idx c (IsTree Any B h) n trees tree)
        (assign_all edges idx c (λ d. B - 1 ≤ count d) n filled many)

  -- The key lies below the edge.
  module _ (off : (ltb idx n && (keys idx == t)) ≡ false) where
    after : 0 < n - idx → t < keys idx
    after pos =
        let above = get_index-above n keys t (omega arith) in
        strictly idx n (keys idx) (omega arith) above off
      where
        strictly : (a b k : ℕ) → a < b → t ≤ k → (ltb a b && (k == t)) ≡ false → t < k
        strictly a b k lt le off = ground arith

    pub below_present : has_key t (for_all (edges idx)) ≡ true
    below_present =
        sym (
          has_key-around idx (n - idx) keys (below internal edges) t (for_all (edges idx))
            (subst IsAscending cut asc) (get_index-below n keys t) after)
        ∙ ap (has_key t) (sym cut)
        ∙ present

    pub order_below :
        (c : Node)
        → for_all c ≡ remove_key t (for_all (edges idx))
        → rest_from 0 n keys (below internal (assign edges idx c)) ≡ remove_key t all_keys
    order_below c same =
        rest_from-assign n keys edges idx in_range c
        ∙ ap (around idx (n - idx) keys (below internal edges)) same
        ∙ sym (
            remove_key-around idx (n - idx) keys (below internal edges) t (for_all (edges idx))
              (subst IsAscending cut asc) (get_index-below n keys t) after)
        ∙ ap (remove_key t) (sym cut)

  -- The key is the node's own: the largest of the subtree before it takes its place.
  module _ (inside : idx < n) (own : keys idx ≡ t) (c : Node) (r : ℕ) (front : List ℕ)
      (largest : for_all (edges idx) ≡ front ++ (r ∷ [])) where
    abbrev after_own : List ℕ
    after_own = rest_from (suc idx) (n - suc idx) keys (below internal edges)

    own_cut :
        all_keys
        ≡ (span 0 idx keys (below internal edges) ++ ((front ++ (r ∷ [])) ++ [])) ++ (t ∷ after_own)
    unfolding around tail_from below
    own_cut =
        rest_from_cut idx (n - suc idx) n keys (below internal edges) (omega arith)
        ∙ ap₂ (λ l x. l ++ (x ∷ after_own))
            (rest_from-around idx 0 idx (omega arith) keys (below internal edges)
              ∙ ap (λ l. span 0 idx keys (below internal edges) ++ (l ++ [])) largest)
            own

    own_removed :
        remove_key t all_keys
        ≡ (span 0 idx keys (below internal edges) ++ ((front ++ (r ∷ [])) ++ [])) ++ after_own
    own_removed =
        ap (remove_key t) own_cut
        ∙ remove_key-here t (span 0 idx keys (below internal edges) ++ ((front ++ (r ∷ [])) ++ []))
            after_own
            (IsAscending-split
              (span 0 idx keys (below internal edges) ++ ((front ++ (r ∷ [])) ++ [])) t after_own
              (subst IsAscending own_cut asc)).1

    key_other : (j : ℕ) → j ≢ idx → assign keys idx r j ≡ keys j
    unfolding assign
    key_other j ne = ground arith

    assign_own : assign keys idx r idx ≡ r
    unfolding assign
    assign_own = ground arith

    edges_other : (j : ℕ) → j ≢ idx → below internal (assign edges idx c) j ≡ below internal edges j
    unfolding below
    edges_other j ne = ap for_all (assign_other edges idx c j ne)

    pub order_own :
        for_all c ≡ front
        → rest_from 0 n (assign keys idx r) (below internal (assign edges idx c))
          ≡ remove_key t all_keys
    unfolding around tail_from below
    order_own same =
        rest_from_cut idx (n - suc idx) n (assign keys idx r) (below internal (assign edges idx c))
          (omega arith)
        ∙ ap₂
            (λ l x.
              l
              ++ (x
                  ∷ rest_from (suc idx) (n - suc idx) (assign keys idx r)
                      (below internal (assign edges idx c))))
            (rest_from_same idx (assign keys idx r) keys (below internal (assign edges idx c))
                (below internal (assign edges idx c)) (λ j lt. key_other j (omega arith))
                (λ j le. refl)
              ∙ rest_from_changed idx 0 idx (omega arith) keys (below internal edges)
                  (below internal (assign edges idx c)) (λ j lt. edges_other j (omega arith))
                  (λ j gt le. edges_other j (omega arith))
              ∙ ap (λ l. span 0 idx keys (below internal edges) ++ (l ++ []))
                  (ap for_all (assign_here edges idx c) ∙ same))
            assign_own
        ∙ ap (λ l. (span 0 idx keys (below internal edges) ++ (front ++ [])) ++ (r ∷ l))
            (rest_from_shift 0 (suc idx) (suc idx) (n - suc idx) (assign keys idx r) keys
              (below internal (assign edges idx c)) (below internal edges) (omega arith)
              (λ j j' e ge lt. key_other j (omega arith) ∙ ap keys (omega arith))
              (λ j j' e ge le.
                edges_other j (omega arith) ∙ ap (below internal edges) (omega arith)))
        ∙ shuffle (span 0 idx keys (below internal edges)) front r after_own
        ∙ sym own_removed
