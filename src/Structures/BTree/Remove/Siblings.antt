-- ===== src/Structures/BTree/Remove/Siblings.antt =====
-- A child and its sibling in data-structure/04-btree/include/btree.hpp, before and after a key is
-- borrowed through the parent, or after the two are merged: their shape, and their keys in order.
use snu_projects.Base.{
  ℕ, zero, suc, ◌+◌, ◌-◌, ◌*◌, ◌≤◌, ◌<◌, ◌≡◌, sym, ap, ap₂, subst, ◌∙◌, ◌∷◌, ◌++◌, arith, ltb, ◌==◌,
  inl, inr, Bool-cases,
}
use mathlib.Core.List.{append_assoc}
use snu_projects.Structures.BTree.{
  NodeType, leaf, internal, Node, node, for_all, rest_from, assign, move_range, count,
}
use snu_projects.Structures.BTree.Remove.{
  gained_last, lost_first, gained_first, lost_last, joined_edges, extended, without_first, prefixed,
  without_last, joined,
}
use snu_projects.Structures.BTree.Shape.{IsTree, leaves, inner, below, IsWalked, for_all-rest}
use snu_projects.Structures.BTree.Remove.Halves.{
  extended_lem, without_first_lem, prefixed_lem, without_last_lem, joined_lem,
}

-- Nothing is asked of the slots past a leaf's keys.
abbrev pub Any : ℕ → Type 0
Any x = Unit {0}

module _ (Q : Node → Type 0) (n : ℕ) (edges : ℕ → Node) (each : (j : ℕ) → j ≤ n → Q (edges j)) where
  gained_last_all :
      (from : ℕ → Node) → Q (from 0) → (j : ℕ) → j ≤ n + 1 → Q (gained_last internal n edges from j)
  unfolding gained_last assign
  gained_last_all from q j le = elim (Bool-cases (j == n + 1)) [
    | inl e ↦ rw e (q)
    | inr e ↦ rw e (each j (ground arith))
  ]

  lost_first_all : (j : ℕ) → j < n → Q (lost_first internal n edges j)
  unfolding lost_first assign move_range
  lost_first_all j lt = subst Q {x = edges (suc j)} (ground arith) (each (suc j) (omega arith))

  gained_first_all :
      (from : Node) → Q from → (j : ℕ) → j ≤ n + 1 → Q (gained_first internal n edges from j)
  unfolding gained_first assign move_range
  gained_first_all from q zero le = q
  gained_first_all from q (suc j) le = subst Q {x = edges j} (ground arith) (each j (omega arith))

  lost_last_all : (j : ℕ) → j < n → Q (lost_last internal n edges j)
  unfolding lost_last assign
  lost_last_all j lt = subst Q {x = edges j} (ground arith) (each j (omega arith))

  joined_edges_all :
      (m : ℕ) (from : ℕ → Node)
      → ((j : ℕ) → j ≤ m → Q (from j))
      → (j : ℕ) → j ≤ n + (1 + m)
      → Q (joined_edges internal n edges m from j)
  unfolding joined_edges move_range
  joined_edges_all m from q j le = elim (Bool-cases (ltb n j)) [
    | inl e ↦ subst Q {x = from (j - (n + 1))} (ground arith) (q (j - (n + 1)) (omega arith))
    | inr e ↦ subst Q {x = edges j} (ground arith) (each j (ground arith))
  ]

-- The keys of two siblings with the parent's key between them.
module _ (type : NodeType) (m : ℕ) (ks : ℕ → ℕ) (es : ℕ → Node) (key l : ℕ) (fk : ℕ → ℕ)
    (fe : ℕ → Node) where
  order_right :
      IsWalked type m
      → IsWalked type l
      → IsWalked type (l - 1)
      → 0 < l
      → for_all (node type m ks es) ++ (key ∷ for_all (node type l fk fe))
        ≡ for_all (extended type m ks es key fe)
          ++ (fk 0 ∷ for_all (without_first type type l fk fe))
  order_right w w' w'' pos =
      ap₂ (λ x y. x ++ (key ∷ y)) (for_all-rest type m ks es w)
        (for_all-rest type l fk fe w' ∙ without_first_lem type l fk fe pos w'')
      ∙ sym (
          append_assoc (rest_from 0 m ks (below type es)) (key ∷ below type fe 0)
            (fk 0 ∷ for_all (without_first type type l fk fe)))
      ∙ ap (λ x. x ++ (fk 0 ∷ for_all (without_first type type l fk fe)))
          (sym (extended_lem type m ks es key fe))

  order_left :
      IsWalked type m
      → IsWalked type l
      → IsWalked type (l - 1)
      → 0 < l
      → for_all (node type l fk fe) ++ (key ∷ for_all (node type m ks es))
        ≡ for_all (without_last type type l fk fe)
          ++ (fk (l - 1) ∷ for_all (prefixed type m ks es key (fe l)))
  order_left w w' w'' pos =
      ap₂ (λ x y. x ++ (key ∷ y))
        (for_all-rest type l fk fe w' ∙ without_last_lem type l fk fe pos w'')
        (for_all-rest type m ks es w)
      ∙ append_assoc (for_all (without_last type type l fk fe)) (fk (l - 1) ∷ below type fe l)
          (key ∷ rest_from 0 m ks (below type es))
      ∙ ap (λ x. for_all (without_last type type l fk fe) ++ (fk (l - 1) ∷ x))
          (sym (prefixed_lem type m ks es key fe l))

  order_joined :
      IsWalked type m
      → IsWalked type l
      → for_all (joined type m ks es key l fk fe)
        ≡ for_all (node type m ks es) ++ (key ∷ for_all (node type l fk fe))
  order_joined w w' =
      joined_lem type m ks es key l fk fe
      ∙ sym
          (ap₂ (λ x y. x ++ (key ∷ y)) (for_all-rest type m ks es w) (for_all-rest type l fk fe w'))

pub borrowed_right :
    (B h : ℕ) (type : NodeType) (m : ℕ) (ks : ℕ → ℕ) (es : ℕ → Node) (key : ℕ) (beside : NodeType)
    (l : ℕ) (fk : ℕ → ℕ) (fe : ℕ → Node)
    → IsTree Any B h (node type m ks es)
    → IsTree Any B h (node beside l fk fe)
    → m < 2 * B - 1
    → 1 < l
    → IsTree Any B h (extended type m ks es key fe)
      × IsTree Any B h (without_first type beside l fk fe)
      × (for_all (node type m ks es) ++ (key ∷ for_all (node beside l fk fe))
          ≡ for_all (extended type m ks es key fe)
            ++ (fk 0 ∷ for_all (without_first type beside l fk fe)))
unfolding extended without_first
borrowed_right B h type m ks es key beside l fk fe (leaves _ _ _ le stale) (leaves _ _ _ le' stale')
      room more =
    (
      leaves (m + 1) _ _ (omega arith) (λ i ge lt. tt),
      leaves (l - 1) _ _ (omega arith) (λ i ge lt. tt),
      order_right leaf m ks es key l fk fe tt tt tt (omega arith),
    )
borrowed_right B h type m ks es key beside l fk fe (inner h' _ _ _ pos le trees filled)
      (inner _ _ _ _ pos' le' trees' filled') room more =
    (
      inner h' (m + 1) _ _ (omega arith) (omega arith)
          (gained_last_all (IsTree Any B h') m es trees fe (trees' 0 (omega arith)))
          (gained_last_all (λ c. B - 1 ≤ count c) m es filled fe (filled' 0 (omega arith))),
      inner h' (l - 1) _ _ (omega arith) (omega arith)
          (λ j le. lost_first_all (IsTree Any B h') l fe trees' j (omega arith))
          (λ j le. lost_first_all (λ c. B - 1 ≤ count c) l fe filled' j (omega arith)),
      order_right internal m ks es key l fk fe pos pos' (omega arith) (omega arith),
    )

pub borrowed_left :
    (B h : ℕ) (type : NodeType) (m : ℕ) (ks : ℕ → ℕ) (es : ℕ → Node) (key : ℕ) (beside : NodeType)
    (l : ℕ) (fk : ℕ → ℕ) (fe : ℕ → Node)
    → IsTree Any B h (node type m ks es)
    → IsTree Any B h (node beside l fk fe)
    → m < 2 * B - 1
    → 1 < l
    → IsTree Any B h (prefixed type m ks es key (fe l))
      × IsTree Any B h (without_last type beside l fk fe)
      × (for_all (node beside l fk fe) ++ (key ∷ for_all (node type m ks es))
          ≡ for_all (without_last type beside l fk fe)
            ++ (fk (l - 1) ∷ for_all (prefixed type m ks es key (fe l))))
unfolding prefixed without_last
borrowed_left B h type m ks es key beside l fk fe (leaves _ _ _ le stale) (leaves _ _ _ le' stale')
      room more =
    (
      leaves (m + 1) _ _ (omega arith) (λ i ge lt. tt),
      leaves (l - 1) _ _ (omega arith) (λ i ge lt. tt),
      order_left leaf m ks es key l fk fe tt tt tt (omega arith),
    )
borrowed_left B h type m ks es key beside l fk fe (inner h' _ _ _ pos le trees filled)
      (inner _ _ _ _ pos' le' trees' filled') room more =
    (
      inner h' (m + 1) _ _ (omega arith) (omega arith)
          (gained_first_all (IsTree Any B h') m es trees (fe l) (trees' l (omega arith)))
          (gained_first_all (λ c. B - 1 ≤ count c) m es filled (fe l) (filled' l (omega arith))),
      inner h' (l - 1) _ _ (omega arith) (omega arith)
          (λ j le. lost_last_all (IsTree Any B h') l fe trees' j (omega arith))
          (λ j le. lost_last_all (λ c. B - 1 ≤ count c) l fe filled' j (omega arith)),
      order_left internal m ks es key l fk fe pos pos' (omega arith) (omega arith),
    )

pub merged :
    (B h : ℕ) (type : NodeType) (m : ℕ) (ks : ℕ → ℕ) (es : ℕ → Node) (key : ℕ) (beside : NodeType)
    (l : ℕ) (fk : ℕ → ℕ) (fe : ℕ → Node)
    → IsTree Any B h (node type m ks es)
    → IsTree Any B h (node beside l fk fe)
    → m + l < 2 * B - 1
    → IsTree Any B h (joined type m ks es key l fk fe)
      × (for_all (joined type m ks es key l fk fe)
          ≡ for_all (node type m ks es) ++ (key ∷ for_all (node beside l fk fe)))
unfolding joined
merged B h type m ks es key beside l fk fe (leaves _ _ _ le stale) (leaves _ _ _ le' stale') room =
    (
      leaves (m + (1 + l)) _ _ (omega arith) (λ i ge lt. tt),
      order_joined leaf m ks es key l fk fe tt tt,
    )
merged B h type m ks es key beside l fk fe (inner h' _ _ _ pos le trees filled)
      (inner _ _ _ _ pos' le' trees' filled') room =
    (
      inner h' (m + (1 + l)) _ _ (omega arith) (omega arith)
          (joined_edges_all (IsTree Any B h') m es trees l fe trees')
          (joined_edges_all (λ c. B - 1 ≤ count c) m es filled l fe filled'),
      order_joined internal m ks es key l fk fe pos pos',
    )
