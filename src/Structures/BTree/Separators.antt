-- ===== src/Structures/BTree/Separators.antt =====
-- Keys on either side of an edge of a B-tree node (data-structure/04-btree/include/btree.hpp): what
-- is inserted, removed or looked up below the edge, seen from the node.
use snu_projects.Base.{ℕ, zero, suc, ◌<◌, ◌≡◌, ◌≢◌, sym, ap, ◌∙◌, List, ◌++◌, arith, true, false}
use mathlib.Core.Bool.{true≢false}
use mathlib.Core.List.{append_assoc}
use snu_projects.Structures.Keys.{
  insert_key, remove_key, has_key, AllBelow, AllAbove, IsAscending, has_key-here,
}
use snu_projects.Structures.Keys.Between.{
  insert_key-between, remove_key-between, has_key-between, has_key-part,
}
use snu_projects.Structures.BTree.{rest_from}
use snu_projects.Structures.BTree.Order.{span, tail_from}
use snu_projects.Structures.BTree.Cut.{around}
use snu_projects.Structures.BTree.Sides.{span-AllBelow, tail_from-AllAbove, around-IsAscending}

module _ (idx m : ℕ) (k : ℕ → ℕ) (s : ℕ → List ℕ) where
  module _ (t : ℕ) (xs : List ℕ) (asc : IsAscending (around idx m k s xs))
      (before : (j : ℕ) → j < idx → k j < t) (after : 0 < m → t < k idx) where
    sides : AllBelow t (span 0 idx k s) × AllAbove t (tail_from idx m k s)
    sides =
        let (front, here, back) = around-IsAscending idx m k s xs asc in
        (span-AllBelow idx t k s front before, tail_from-AllAbove idx m t k s back after)

    pub insert_key-around : insert_key t (around idx m k s xs) ≡ around idx m k s (insert_key t xs)
    unfolding around
    insert_key-around =
        insert_key-between t (span 0 idx k s) xs (tail_from idx m k s) sides.0 sides.1

    pub remove_key-around : remove_key t (around idx m k s xs) ≡ around idx m k s (remove_key t xs)
    unfolding around
    remove_key-around =
        remove_key-between t (span 0 idx k s) xs (tail_from idx m k s) sides.0 sides.1

    pub has_key-around : has_key t (around idx m k s xs) ≡ has_key t xs
    unfolding around
    has_key-around = has_key-between t (span 0 idx k s) xs (tail_from idx m k s) sides.0 sides.1

  -- A key that the node does not hold is not the separator after the edge.
  pub has_key-separator : (xs : List ℕ) → 0 < m → has_key (k idx) (around idx m k s xs) ≡ true
  unfolding around tail_from
  has_key-separator xs pos = here m pos
    where
      here :
          (m' : ℕ)
          → 0 < m'
          → has_key (k idx) (span 0 idx k s ++ (xs ++ tail_from idx m' k s)) ≡ true
      here zero p = ground arith
      here (suc m') p =
          ap (has_key (k idx)) (sym (append_assoc (span 0 idx k s) xs (tail_from idx (suc m') k s)))
          ∙ has_key-here (k idx) (span 0 idx k s ++ xs) (rest_from (suc idx) m' k s)

  pub separator_ne :
      (t : ℕ) (xs : List ℕ) → has_key t (around idx m k s xs) ≡ false → 0 < m → k idx ≢ t
  separator_ne t xs absent pos e =
      true≢false
        (sym (has_key-separator xs pos) ∙ ap (λ x. has_key x (around idx m k s xs)) e ∙ absent)

  pub has_key-inside :
      (x : ℕ) (xs : List ℕ) → has_key x xs ≡ true → has_key x (around idx m k s xs) ≡ true
  unfolding around
  has_key-inside x xs h = has_key-part x (span 0 idx k s) xs (tail_from idx m k s) h
