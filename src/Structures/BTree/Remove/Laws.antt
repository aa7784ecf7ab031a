-- ===== src/Structures/BTree/Remove/Laws.antt =====
-- remove of data-structure/04-btree/include/btree.hpp, for a key that the tree holds.
use snu_projects.Base.{
  ℕ, suc, ◌-◌, ◌≤◌, ◌<◌, ◌≡◌, refl, sym, ap, subst, ◌∙◌, [], arith, ltb, leb, ◌==◌, ◌&&◌, Bool,
  true, false, inl, inr, Bool-cases, Option, some,
}
use snu_projects.Structures.Keys.{
  has_key, remove_key, IsAscending, remove_key-here, has_key-here, IsAscending-split,
}
use mathlib.Core.List.{append-nil}
use snu_projects.Structures.BTree.{
  internal, Node, node, for_all, rest_from, count, get_index, find_rightmost_key, assign, edge,
}
use snu_projects.Structures.BTree.Insert.{index_in, set_edge, in_edge, with_index}
use snu_projects.Structures.BTree.Remove.{remove_below, is_key_at, set_key, prepare}
use snu_projects.Structures.BTree.Shape.{IsTree, inner, below}
use snu_projects.Structures.BTree.Sides.{get_index-le}
use snu_projects.Structures.BTree.Remove.Siblings.{Any}
use snu_projects.Structures.BTree.Remove.Refill.{IsLoose, loose_inner, inorder}
use snu_projects.Structures.BTree.Remove.Merge.{refill_lem}
use snu_projects.Structures.BTree.Remove.Leaf.{Removes, find_rightmost_key_lem}
use snu_projects.Structures.BTree.Remove.Edge.{
  tighten, changed_IsLoose, child-asc, below_present, order_below, order_own,
}

-- The node loses the key and keeps its own count.
abbrev pub RemovesBelow : ℕ → ℕ → ℕ → Node → Option (Node × Bool) → Type 0
RemovesBelow B h t p o =
    (p' : Node) × (o ≡ some (p', true))
    × IsLoose B h p'
    × (inorder p' ≡ remove_key t (inorder p))
    × (count p' ≡ count p)

module _ (B h : ℕ) (two : 2 ≤ B) (f : ℕ → Node → Option (Node × Bool))
    (ih : (x : ℕ) (c : Node)
      → IsTree Any B h c
      → IsAscending (for_all c)
      → has_key x (for_all c) ≡ true
      → B ≤ count c
      → Removes B h x c (f x c)) where
  -- The child after the removal in it.
  child_after :
      (x : ℕ) (c : Node) (o : Option (Node × Bool))
      → B ≤ count c
      → Removes B h x c o
      → (c' : Node) × (o ≡ some (c', true))
        × IsTree Any B h c'
        × (for_all c' ≡ remove_key x (for_all c))
        × (B - 1 ≤ count c')
  child_after x c o many (c', run, loose, order, kept) =
      let (tree, same) = tighten B h c' (omega arith) loose in
      (c', run, tree, same ∙ order, omega arith)

  remove_below_lem :
      (t : ℕ) (p : Node)
      → IsLoose B (suc h) p
      → IsAscending (inorder p)
      → has_key t (inorder p) ≡ true
      → B ≤ count (edge p (index_in p t))
      → RemovesBelow B (suc h) t p (remove_below f t (some (p, index_in p t)))
  unfolding remove_below edge index_in inorder is_key_at set_key in_edge set_edge count
  remove_below_lem t p (loose_inner _ n keys edges le trees filled) asc present many =
      elim (Bool-cases (ltb idx n && (keys idx == t))) [
        | inl own ↦
            let (inside, same) = both idx n (keys idx) own in
            let (front, largest) =
              find_rightmost_key_lem B h (edges idx) two (trees idx in_range) (omega arith) in
            let child_sorted = child-asc B h n two keys edges le trees filled asc t present in
            let (c', run, tree, order, kept) = child_after r (edges idx) (f r (edges idx)) many (
              ih r (edges idx) (trees idx in_range) child_sorted
                (ap (has_key r) largest ∙ has_key-here r front []) many) in
            rw own (
              node internal n (assign keys idx r) (assign edges idx c'),
              ap (in_edge (node internal n (assign keys idx r) edges) idx) run,
              changed_IsLoose B h n two keys edges le trees filled asc t present (assign keys idx r)
                  c' tree kept,
              order_own B h n two keys edges le trees filled asc t present inside same c' r front
                  largest
                  (order
                    ∙ ap (remove_key r) largest
                    ∙ remove_key-here r front []
                        (IsAscending-split front r [] (subst IsAscending largest child_sorted)).1
                    ∙ append-nil front),
              refl,
            )
        | inr off ↦
            let (c', run, tree, order, kept) = child_after t (edges idx) (f t (edges idx)) many (
              ih t (edges idx) (trees idx in_range)
                (child-asc B h n two keys edges le trees filled asc t present)
                (below_present B h n two keys edges le trees filled asc t present off) many) in
            rw off (
              node internal n keys (assign edges idx c'),
              ap (in_edge (node internal n keys edges) idx) run,
              changed_IsLoose B h n two keys edges le trees filled asc t present keys c' tree kept,
              order_below B h n two keys edges le trees filled asc t present off c' order,
              refl,
            )
      ]
    where
      idx : ℕ
      idx = get_index n keys t

      in_range : idx ≤ n
      in_range = get_index-le n keys t

      r : ℕ
      r = find_rightmost_key (edges idx)

      both : (a b k : ℕ) → (ltb a b && (k == t)) ≡ true → (a < b) × (k ≡ t)
      both a b k e = ground arith

  -- After the child is refilled, if it has to be.
  pub at_level :
      (n : ℕ) (keys : ℕ → ℕ) (edges : ℕ → Node) (t : ℕ)
      → IsTree Any B (suc h) (node internal n keys edges)
      → IsAscending (rest_from 0 n keys (below internal edges))
      → has_key t (rest_from 0 n keys (below internal edges)) ≡ true
      → (p' : Node) × (remove_below f t (prepare internal n keys edges B t) ≡ some (p', true))
        × IsLoose B (suc h) p'
        × (inorder p' ≡ remove_key t (rest_from 0 n keys (below internal edges)))
        × (n ≤ suc (count p'))
  unfolding prepare inorder index_in edge count
  at_level n keys edges t (inner _ _ _ _ pos le trees filled) asc present =
      elim (Bool-cases (leb (count (edges idx)) (B - 1))) [
        | inl few ↦
            let (p, made, (loose, same, kept, many)) =
              refill_lem B h n two keys edges le trees filled asc t pos
                (le_of_leb (count (edges idx)) few) in
            let (p', run, loose', order, count') =
              remove_below_lem t p loose (subst IsAscending (sym same) asc)
                (ap (has_key t) same ∙ present) many in
            rw few (
              p',
              ap (λ o. remove_below f t (with_index t o)) made ∙ run,
              loose',
              order ∙ ap (remove_key t) same,
              omega arith,
            )
        | inr many ↦
            let (p', run, loose', order, count') =
              remove_below_lem t (node internal n keys edges)
                (loose_inner h n keys edges le trees filled) asc present
                (lt_of_leb (count (edges idx)) many) in
            rw many (p', run, loose', order, omega arith)
      ]
    where
      idx : ℕ
      idx = get_index n keys t

      le_of_leb : (c : ℕ) → leb c (B - 1) ≡ true → c ≤ B - 1
      le_of_leb c e = ground arith

      lt_of_leb : (c : ℕ) → leb c (B - 1) ≡ false → B ≤ c
      lt_of_leb c e = ground arith
