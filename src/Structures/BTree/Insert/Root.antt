-- ===== src/Structures/BTree/Insert/Root.antt =====
-- BTree::insert of data-structure/04-btree/include/btree.hpp, for a key that the tree does not hold.
use snu_projects.Base.{
  ℕ, suc, ◌-◌, ◌*◌, ◌≤◌, ◌<◌, ◌≡◌, ◌≢◌, refl, sym, ap, subst, ◌∙◌, List, arith, leb, if◌then◌else◌,
  Bool, true, false, inl, inr, Bool-cases, some, ◌⊎◌,
}
use mathlib.Core.Bool.{true≢false}
use snu_projects.Structures.Keys.{
  insert_key, has_key, IsAscending, has_key-insert, insert_key-IsAscending,
}
use snu_projects.Structures.BTree.{
  internal, Node, null, node, for_all, rest_from, count, depth, assign, no_keys, no_edges, node_of,
  keys_from,
}
use snu_projects.Structures.BTree.Insert.{split_child, grow_root, insert_below, insert}
use snu_projects.Structures.BTree.Shape.{IsTree, leaves, inner, below, count-le, depth_lem}
use snu_projects.Structures.BTree.Insert.SplitChild.{IsSplit, split_full_lem}
use snu_projects.Structures.BTree.Insert.Edge.{IsOpen, IsOpen-same}
use snu_projects.Structures.BTree.Insert.Laws.{insert_node_lem}

-- The root's height grows by one if it is full.
abbrev height_after : ℕ → ℕ → Node → ℕ
height_after B h root = if leb (2 * B - 1) (count root) then suc h else h

module _ (P : ℕ → Type 0) (at_zero : P 0) (B : ℕ) (two : 2 ≤ B) (t : ℕ) where
  only : (root : Node) (j : ℕ) → j ≤ 0 → assign no_edges 0 root j ≡ root
  unfolding assign
  only root j le = ground arith

  deep : (h : ℕ) (p : Node) → IsTree P B h p → h < suc (depth p)
  deep h p tree = rw (depth_lem P B h p tree) (omega arith)

  -- The new root above a full one, split.
  root-IsSplit :
      (h : ℕ) (root : Node)
      → IsTree P B h root
      → IsOpen P B t h root
      → count root ≡ 2 * B - 1
      → (p : Node) × (split_child B (node internal 0 no_keys (assign no_edges 0 root)) 0 ≡ some p)
        × IsSplit P B h 0 (for_all root) p
  unfolding split_child assign rest_from below
  root-IsSplit h root tree ready full =
      split_full_lem P at_zero B two h 0 no_keys (assign no_edges 0 root) 0 root refl (omega arith)
        (omega arith) full (λ j le. subst (IsTree P B h) (sym (only root j le)) tree)
        (λ j le. subst (λ c. B - 1 ≤ count c) (sym (only root j le)) (omega arith)) ready.3

  pub insert_below_grow :
      (h : ℕ) (root : Node)
      → IsTree P B h root
      → IsOpen P B t h root
      → (p' : Node) × (done : Bool) × (insert_below B t (grow_root B root) ≡ some (p', done))
        × IsTree P B (height_after B h root) p'
        × (for_all p' ≡ (if done then insert_key t (for_all root) else for_all root))
        × ((P t → ⊥) → done ≡ true)
  unfolding grow_root insert_below
  insert_below_grow h root tree ready = elim (Bool-cases (leb (2 * B - 1) (count root))) [
    | inl e ↦ rw e (
        let (p, made, (taller, same, one)) =
          root-IsSplit h root tree ready (is_full (count root) e (count-le P B h root tree)) in
        let (p', done, run, (tree', grown, order, told)) =
          insert_node_lem P at_zero B two t (suc h) (suc (depth p)) p (deep (suc h) p taller) taller
            (IsOpen-same P B t (suc h) root p same taller h ready) (omega arith) in
        (
          p',
          done,
          ap (insert_below B t) made ∙ run,
          tree',
          order ∙ ap (λ l. if done then insert_key t l else l) same,
          told,
        ))
    | inr e ↦ rw e (
        let (p', done, run, (tree', grown, order, told)) =
          insert_node_lem P at_zero B two t h (suc (depth root)) root (deep h root tree) tree ready
            (lt_of_leb (count root) e) in
        (p', done, run, tree', order, told))
  ]
    where
      is_full : (c : ℕ) → leb (2 * B - 1) c ≡ true → c ≤ 2 * B - 1 → c ≡ 2 * B - 1
      is_full c e le = ground arith

      lt_of_leb : (c : ℕ) → leb (2 * B - 1) c ≡ false → c < 2 * B - 1
      lt_of_leb c e = ground arith

-- Any value that a slot past a leaf's keys may hold.
pub IsTree-mono :
    (P Q : ℕ → Type 0) (B h : ℕ) (p : Node)
    → ((x : ℕ) → P x → Q x)
    → IsTree P B h p
    → IsTree Q B h p
IsTree-mono P Q B h p each (leaves n keys edges le stale) =
    leaves n keys edges le (λ i ge lt. each (keys i) (stale i ge lt))
IsTree-mono P Q B h p each (inner h' n keys edges pos le trees filled) =
    inner h' n keys edges pos le (λ i le. IsTree-mono P Q B h' (edges i) each (trees i le)) filled

-- A slot that insertions leave past a leaf's keys holds T() or a key of the tree.
abbrev pub IsSettled : List ℕ → ℕ → Type 0
IsSettled xs x = (x ≡ 0) ⊎ (has_key x xs ≡ true)

-- A B-tree that holds a set of keys, as insertions leave it.
abbrev pub IsGrown : ℕ → Node → Type 0
IsGrown B null = Unit {0}
IsGrown B (node type n keys edges) =
    IsAscending (for_all (node type n keys edges))
    × ((h : ℕ) × IsTree (IsSettled (for_all (node type n keys edges))) B h (node type n keys edges))

IsGrown-tree :
    (B h : ℕ) (p : Node) (xs : List ℕ)
    → for_all p ≡ xs
    → IsAscending xs
    → IsTree (IsSettled xs) B h p
    → IsGrown B p
IsGrown-tree B h p xs same asc (leaves n keys edges le stale) = (
  subst IsAscending (sym same) asc,
  (0, subst (λ l. IsTree (IsSettled l) B 0 p) (sym same) (leaves n keys edges le stale)),
)
IsGrown-tree B h p xs same asc (inner h' n keys edges pos le trees filled) = (
  subst IsAscending (sym same) asc,
  (
    suc h',
    subst (λ l. IsTree (IsSettled l) B (suc h') p) (sym same)
        (inner h' n keys edges pos le trees filled),
  ),
)

IsSettled-insert : (t : ℕ) (xs : List ℕ) (x : ℕ) → IsSettled xs x → IsSettled (insert_key t xs) x
IsSettled-insert t xs x (inl e) = inl e
IsSettled-insert t xs x (inr e) = inr (has_key-insert x t xs ∙ (rw e (ground arith)))

-- On an empty tree, or a B-tree that holds a set of keys as insertions leave it (for B of at least
-- 2), inserting a key that the tree does not hold and that is not T() ends with true. The result is
-- again such a B-tree: its leaves at one depth, 2 B - 1 keys at most in a node and B - 1 at least in
-- all but the root; and its keys in order are the old ones with the new key in its place.
pub insert_lem :
    (B : ℕ) (root : Node) (t : ℕ)
    → 2 ≤ B
    → IsGrown B root
    → has_key t (for_all root) ≡ false
    → t ≢ 0
    → (root' : Node) × (insert B root t ≡ some (root', true))
      × IsGrown B root'
      × (for_all root' ≡ insert_key t (for_all root))
unfolding insert node_of for_all insert_key keys_from assign
insert_lem B null t two grown absent ne = (
  node_of t,
  refl,
  ((tt, tt), (0, leaves 1 _ _ (omega arith) (λ i ge lt. inl (ground arith)))),
  refl,
)
insert_lem B (node type n keys edges) t two (asc, (h, tree)) absent ne =
    let root = node type n keys edges in
    let (p', done, run, tree', order, told) =
      insert_below_grow (IsSettled (for_all root)) (inl refl) B two t h root tree
        (tree, asc, absent, λ x held. inr held) in
    let e = told settled in
    let sorted = order ∙ ap (λ d. if d then insert_key t (for_all root) else for_all root) e in
    (
      p',
      run ∙ ap (λ d. some (p', d)) e,
      IsGrown-tree B (height_after B h root) p' (insert_key t (for_all root)) sorted
          (insert_key-IsAscending t (for_all root) asc)
          (IsTree-mono (IsSettled (for_all root)) (IsSettled (insert_key t (for_all root))) B
            (height_after B h root) p' (IsSettled-insert t (for_all root)) tree'),
      sorted,
    )
  where
    settled : IsSettled (for_all (node type n keys edges)) t → ⊥
    settled (inl zero_key) = ne zero_key
    settled (inr held) = true≢false (sym held ∙ absent)
