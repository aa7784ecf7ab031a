-- ===== src/Structures/BTree/Insert/Leaf.antt =====
-- insert of data-structure/04-btree/include/btree.hpp at a leaf, for a key that it does not hold.
use snu_projects.Base.{
  ℕ, suc, ◌+◌, ◌-◌, ◌*◌, ◌≤◌, ◌<◌, ◌≡◌, ◌≢◌, refl, sym, ap, subst, ◌∙◌, [], ◌∷◌, arith, ltb, ◌==◌,
  if◌then◌else◌, Bool, true, false, inl, inr, Bool-cases, Option, some, eq_of_==,
}
use mathlib.Core.Bool.{true≢false}
use snu_projects.Structures.Keys.{insert_key, has_key, IsAscending}
use snu_projects.Structures.BTree.{
  leaf, Node, node, for_all, rest_from, count, get_index, keys_from,
}
use snu_projects.Structures.BTree.Insert.{opened_keys, insert_leaf}
use snu_projects.Structures.BTree.Cut.{around, rest_from_opened, rest_from-around}
use snu_projects.Structures.BTree.Shape.{IsTree, leaves, below, for_all-rest}
use snu_projects.Structures.BTree.Sides.{get_index-le, get_index-below, get_index-above}
use snu_projects.Structures.BTree.Separators.{insert_key-around}
use snu_projects.Structures.BTree.Insert.Split.{has_key-slot}
use snu_projects.Structures.BTree.Insert.Opened.{
  opened_keys_before, opened_keys_here, opened_keys_after, opened_keys_past,
}

-- What the insertion of a key makes of a node: a tree of the same height; the key is in its place
-- if the result is true, and it is true if no slot of a leaf past its keys can hold the key.
abbrev pub IsInserted : (ℕ → Type 0) → ℕ → ℕ → ℕ → Node → Node → Bool → Type 0
IsInserted P B t h p p' done =
    IsTree P B h p'
    × (count p ≤ count p')
    × (for_all p' ≡ (if done then insert_key t (for_all p) else for_all p))
    × ((P t → ⊥) → done ≡ true)

abbrev pub Inserts : (ℕ → Type 0) → ℕ → ℕ → ℕ → Node → Option (Node × Bool) → Type 0
Inserts P B t h p o =
    (p' : Node) × (done : Bool) × (o ≡ some (p', done)) × IsInserted P B t h p p' done

module _ (P : ℕ → Type 0) (at_zero : P 0) (B : ℕ) (two : 2 ≤ B) (t : ℕ) where
  module _ (n : ℕ) (keys : ℕ → ℕ) (edges : ℕ → Node) (room : n < 2 * B - 1)
      (stale : (i : ℕ) → n ≤ i → i < 2 * B - 1 → P (keys i))
      (asc : IsAscending (for_all (node leaf n keys edges)))
      (absent : has_key t (for_all (node leaf n keys edges)) ≡ false) where
    abbrev idx : ℕ
    idx = get_index n keys t

    in_range : idx ≤ n
    in_range = get_index-le n keys t

    -- A slot that equals a key which the leaf does not hold lies past its keys.
    stale_slot : keys idx ≡ t → P t
    unfolding for_all
    stale_slot e = elim (Bool-cases (ltb idx n)) [
      | inl lt ↦ absurd (
          true≢false (
            sym (has_key-slot 0 n keys idx (omega arith) (ground arith))
            ∙ ap (λ x. has_key x (keys_from 0 n keys)) e
            ∙ absent))
      | inr ge ↦ subst P e (stale idx (ground arith) (omega (arith, in_range)))
    ]

    leaf_around : for_all (node leaf n keys edges) ≡ around idx (n - idx) keys (below leaf edges) []
    unfolding below
    leaf_around =
        for_all-rest leaf n keys edges tt
        ∙ rest_from-around idx (n - idx) n (omega (arith, in_range)) keys (below leaf edges)

    leaf_opened :
        for_all (node leaf (n + 1) (opened_keys n keys idx t) edges)
        ≡ around idx (n - idx) keys (below leaf edges) (t ∷ [])
    unfolding below
    leaf_opened =
        for_all-rest leaf (n + 1) (opened_keys n keys idx t) edges tt
        ∙ ap (λ x. rest_from 0 x (opened_keys n keys idx t) (below leaf edges)) {y = suc n}
            (omega arith)
        ∙ rest_from_opened idx (n - idx) n (omega (arith, in_range)) keys (below leaf edges)
            (opened_keys n keys idx t) (below leaf edges) (opened_keys_before n keys idx t)
            (opened_keys_after n keys idx t) (λ j lt. refl) (λ j gt le. refl)
        ∙ ap (λ x. around idx (n - idx) keys (below leaf edges) (x ∷ []))
            (opened_keys_here n keys idx t)

    leaf_order :
        keys idx ≢ t
        → for_all (node leaf (n + 1) (opened_keys n keys idx t) edges)
          ≡ insert_key t (for_all (node leaf n keys edges))
    unfolding insert_key
    leaf_order ne =
        leaf_opened
        ∙ sym (
            insert_key-around idx (n - idx) keys (below leaf edges) t []
              (subst IsAscending leaf_around asc) (get_index-below n keys t)
              (λ pos. above (get_index-above n keys t (omega arith))))
        ∙ ap (insert_key t) (sym leaf_around)
      where
        above : t ≤ keys idx → t < keys idx
        above le = omega (arith, ne)

    insert_leaf_stays :
        (keys idx == t) ≡ true → insert_leaf t n keys edges ≡ (node leaf n keys edges, false)
    unfolding insert_leaf
    insert_leaf_stays e = rw e (refl)

    insert_leaf_opens :
        (keys idx == t) ≡ false
        → insert_leaf t n keys edges ≡ (node leaf (n + 1) (opened_keys n keys idx t) edges, true)
    unfolding insert_leaf
    insert_leaf_opens e = rw e (refl)

    pub insert_leaf_lem :
        Inserts P B t 0 (node leaf n keys edges) (some (insert_leaf t n keys edges))
    unfolding count
    insert_leaf_lem = elim (Bool-cases (keys idx == t)) [
      | inl e ↦ (
        node leaf n keys edges,
        false,
        ap some (insert_leaf_stays e),
        (
          leaves n keys edges (omega arith) stale,
          omega arith,
          refl,
          λ no. absurd (no (stale_slot (eq_of_== (keys idx) t e))),
        ),
      )
      | inr e ↦ (
        node leaf (n + 1) (opened_keys n keys idx t) edges,
        true,
        ap some (insert_leaf_opens e),
        (
          leaves (n + 1) _ _ (omega arith) (λ i ge lt.
              subst P (sym (opened_keys_past n keys idx t i (omega arith) in_range))
                (stale i (omega arith) lt)),
          omega arith,
          leaf_order (ground arith),
          λ no. refl,
        ),
      )
    ]
