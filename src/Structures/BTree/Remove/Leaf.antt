-- ===== src/Structures/BTree/Remove/Leaf.antt =====
-- remove of data-structure/04-btree/include/btree.hpp at a leaf that holds the key, and the largest
-- key of a subtree, which takes the place of a key that an internal node loses.
use snu_projects.Base.{
  ℕ, suc, ◌+◌, ◌-◌, ◌*◌, ◌≤◌, ◌<◌, ◌≡◌, ◌≢◌, refl, sym, ap, subst, ◌∙◌, List, [], ◌∷◌, ◌++◌, arith,
  ltb, ◌==◌, Bool, true, inl, inr, Bool-cases, Option, some, eq_of_==, ne_of_==, ==-self,
}
use mathlib.Core.Bool.{true≢false}
use mathlib.Core.List.{append_assoc}
use snu_projects.Structures.Keys.{
  has_key, remove_key, IsAscending, IsAscending-split, remove_key-here,
}
use snu_projects.Structures.BTree.{
  leaf, internal, Node, node, for_all, rest_from, count, get_index, find_rightmost_key, assign,
  move_range,
}
use snu_projects.Structures.BTree.Remove.{remove_leaf, closed_keys}
use snu_projects.Structures.BTree.Order.{span, tail_from}
use snu_projects.Structures.BTree.Cut.{around, rest_from-around, rest_from_opened}
use snu_projects.Structures.BTree.Shape.{IsTree, leaves, inner, below, for_all-rest}
use snu_projects.Structures.BTree.Sides.{get_index-le, get_index-below, get_index-above}
use snu_projects.Structures.BTree.Separators.{has_key-around}
use snu_projects.Structures.BTree.Insert.Split.{rest_from_cut}
use snu_projects.Structures.BTree.Remove.Siblings.{Any}
use snu_projects.Structures.BTree.Remove.Refill.{IsLoose, loose_leaf, inorder}

-- What the removal of a key that a node holds makes of the node.
abbrev pub Removes : ℕ → ℕ → ℕ → Node → Option (Node × Bool) → Type 0
Removes B h t p o =
    (p' : Node) × (o ≡ some (p', true))
    × IsLoose B h p'
    × (inorder p' ≡ remove_key t (for_all p))
    × (count p ≤ suc (count p'))

module _ (B n : ℕ) (keys : ℕ → ℕ) (edges : ℕ → Node) (le : n ≤ 2 * B - 1) (t : ℕ)
    (asc : IsAscending (for_all (node leaf n keys edges)))
    (present : has_key t (for_all (node leaf n keys edges)) ≡ true) where
  abbrev idx : ℕ
  idx = get_index n keys t

  in_range : idx ≤ n
  in_range = get_index-le n keys t

  cut : for_all (node leaf n keys edges) ≡ around idx (n - idx) keys (below leaf edges) []
  unfolding below
  cut =
      for_all-rest leaf n keys edges tt
      ∙ rest_from-around idx (n - idx) n (omega (arith, in_range)) keys (below leaf edges)

  -- The index points to the key.
  not_missing : (0 < n - idx → t < keys idx) → ⊥
  not_missing after = true≢false (
      sym present
      ∙ ap (has_key t) cut
      ∙ has_key-around idx (n - idx) keys (below leaf edges) t [] (subst IsAscending cut asc)
          (get_index-below n keys t) after)

  at_key : (idx < n) × (keys idx ≡ t)
  at_key = elim (Bool-cases (ltb idx n)) [
    | inl lt ↦ elim (Bool-cases (keys idx == t)) [
      | inl e ↦ (ground arith, eq_of_== (keys idx) t e)
      | inr ne ↦ absurd (
          not_missing
            (λ pos. above (get_index-above n keys t (ground arith)) (ne_of_== (keys idx) t ne)))
    ]
    | inr ge ↦ absurd (not_missing (λ pos. absurd (ground arith)))
  ]
    where
      above : t ≤ keys idx → keys idx ≢ t → t < keys idx
      above le ne = omega arith

  closed_before : (j : ℕ) → j < idx → keys j ≡ closed_keys leaf n keys edges idx j
  unfolding closed_keys assign move_range
  closed_before j less = let inside = at_key.0 in ground arith

  closed_after : (j : ℕ) → idx ≤ j → j < n - 1 → keys (suc j) ≡ closed_keys leaf n keys edges idx j
  unfolding closed_keys assign move_range
  closed_after j ge less = let inside = at_key.0 in ground arith

  shorter : n - 1 ≡ idx + (n - 1 - idx)
  shorter = let inside = at_key.0 in omega arith

  -- The leaf's keys, cut at the key.
  whole :
      for_all (node leaf n keys edges)
      ≡ span 0 idx (closed_keys leaf n keys edges idx) (below leaf edges)
        ++ (t ∷ tail_from idx (n - 1 - idx) (closed_keys leaf n keys edges idx) (below leaf edges))
  unfolding around below
  whole =
      for_all-rest leaf n keys edges tt
      ∙ ap (λ x. rest_from 0 x keys (below leaf edges)) {y = suc (n - 1)} (one_more at_key.0)
      ∙ rest_from_opened idx (n - 1 - idx) (n - 1) shorter (closed_keys leaf n keys edges idx)
          (below leaf edges) keys (below leaf edges) closed_before (λ j ge lt. closed_after j ge lt)
          (λ j lt. refl) (λ j gt le. refl)
      ∙ ap
          (λ x.
            around idx (n - 1 - idx) (closed_keys leaf n keys edges idx) (below leaf edges)
              (x ∷ []))
          at_key.1
    where
      one_more : idx < n → n ≡ suc (n - 1)
      one_more lt = omega arith

  leaf_closed :
      inorder (node leaf (n - 1) (closed_keys leaf n keys edges idx) edges)
      ≡ remove_key t (for_all (node leaf n keys edges))
  unfolding inorder below around
  leaf_closed =
      rest_from-around idx (n - 1 - idx) (n - 1) shorter (closed_keys leaf n keys edges idx)
        (below leaf edges)
      ∙ sym (
          remove_key-here t (span 0 idx (closed_keys leaf n keys edges idx) (below leaf edges))
            (tail_from idx (n - 1 - idx) (closed_keys leaf n keys edges idx) (below leaf edges))
            (IsAscending-split (span 0 idx (closed_keys leaf n keys edges idx) (below leaf edges)) t
              (tail_from idx (n - 1 - idx) (closed_keys leaf n keys edges idx) (below leaf edges))
              (subst IsAscending whole asc)).1)
      ∙ ap (remove_key t) (sym whole)

  remove_leaf_found :
      (keys idx == t) ≡ true
      → ltb idx n ≡ true
      → remove_leaf t n keys edges
        ≡ some (node leaf (n - 1) (closed_keys leaf n keys edges idx) edges, true)
  unfolding remove_leaf
  remove_leaf_found e lt = rw (e, lt) (refl)

  pub remove_leaf_lem : Removes B 0 t (node leaf n keys edges) (remove_leaf t n keys edges)
  unfolding count
  remove_leaf_lem =
      let (inside, here) = at_key in
      (
        node leaf (n - 1) (closed_keys leaf n keys edges idx) edges,
        remove_leaf_found (eqb here) (ltb_of_lt inside),
        (loose_leaf (n - 1) _ _ (omega arith)),
        leaf_closed,
        omega arith,
      )
    where
      eqb : {a b : ℕ} → a ≡ b → (a == b) ≡ true
      eqb {a} {b} e = rw e (==-self b)

      ltb_of_lt : {a b : ℕ} → a < b → ltb a b ≡ true
      ltb_of_lt lt = ground arith

-- The largest key stands last.
pub find_rightmost_key_lem :
    (B h : ℕ) (p : Node)
    → 2 ≤ B
    → IsTree Any B h p
    → 0 < count p
    → (front : List ℕ) × (for_all p ≡ front ++ (find_rightmost_key p ∷ []))
unfolding count find_rightmost_key rest_from below
find_rightmost_key_lem B h p two (leaves n keys edges le stale) pos = (
  rest_from 0 (n - 1) keys (below leaf edges),
  for_all-rest leaf n keys edges tt
      ∙ rest_from_cut (n - 1) 0 n keys (below leaf edges) (omega arith),
)
find_rightmost_key_lem B h p two (inner h' n keys edges ready le trees filled) pos =
    let (front, e) =
      find_rightmost_key_lem B h' (edges n) two (trees n (omega arith))
        (more (count (edges n)) (filled n (omega arith))) in
    (
      rest_from 0 (n - 1) keys (below internal edges) ++ (keys (n - 1) ∷ front),
      for_all-rest internal n keys edges ready
          ∙ rest_from_cut (n - 1) 0 n keys (below internal edges) (omega arith)
          ∙ ap (λ l. rest_from 0 (n - 1) keys (below internal edges) ++ (keys (n - 1) ∷ l))
              (ap (below internal edges) {y = n} (omega arith) ∙ e)
          ∙ sym (
              append_assoc (rest_from 0 (n - 1) keys (below internal edges)) (keys (n - 1) ∷ front)
                (find_rightmost_key (edges n) ∷ [])),
    )
  where
    more : (c : ℕ) → B - 1 ≤ c → 0 < c
    more c x = omega arith
