-- ===== src/Structures/RbTree/Remove/Valid.antt =====
-- `RBNode::remove` with the number of nodes as fuel, on a subtree with a red link at its top.
use snu_projects.Base.{
  ℕ, zero, suc, ◌<◌, ◌≤◌, ◌≡◌, sym, ◌∙◌, true, false, List, [], ◌∷◌, ◌++◌, arith, ltb, ◌⊎◌, inl,
  inr, Bool-cases, lt_of_ltb, le_of_ltb,
}
use mathlib.Core.Bool.{false≢true}
use snu_projects.Structures.Keys.{remove_key, has_key, IsAscending, IsAscending-split, has_key-left}
use snu_projects.Structures.RbTree.{Color, red, black, Tree, leaf, node}
use snu_projects.Structures.RbTree.Keys.{keys}
use snu_projects.Structures.RbTree.Invariant.{color_is_red}
use snu_projects.Structures.RbTree.Remove.{size, remove_node}
use snu_projects.Structures.RbTree.Remove.Steps.{Removed}
use snu_projects.Structures.RbTree.Remove.Descend.{IsReady, descend_left}
use snu_projects.Structures.RbTree.Remove.Right.{IsTilted, Below}
use snu_projects.Structures.RbTree.Remove.Branch.{tilted, down_right, down_right-Removed}

has_key-append : (key : ℕ) (xs ys : List ℕ) → has_key key xs ≡ true → has_key key (xs ++ ys) ≡ true
has_key-append key [] ys h = absurd (false≢true h)
has_key-append key (x ∷ xs) ys h = ground (arith, has_key-append key xs ys)

module _ (fuel key : ℕ) (rec : Below fuel key) where
  to_left :
      (n : ℕ) (c : Color) (l : Tree) (k : ℕ) (r : Tree)
      → key < k
      → size (node c l k r) < suc (suc fuel)
      → IsReady n (node c l k r)
      → IsAscending (keys (node c l k r))
      → has_key key (keys (node c l k r)) ≡ true
      → Removed n
          (color_is_red c)
          (remove_key key (keys (node c l k r)))
          (remove_node (suc fuel) (node c l k r) key)
  unfolding remove_node
  to_left n c leaf k r lt small ready s has =
      absurd (false≢true (sym (has_key-left key k [] (keys r) lt s.0) ∙ has))
  to_left n c (node cl ll kl lr) k r lt small ready s has =
      let l = node cl ll kl lr in
      let (asc_l, less, more, asc_r) = IsAscending-split (keys l) k (keys r) s in
      let there = sym (has_key-left key k (keys l) (keys r) lt more) ∙ has in
      rw (ltb_of_lt, remove_node)
        (descend_left (λ l₁. remove_node fuel l₁ key) key (λ ks. has_key key ks ≡ true) n c cl ll kl
          lr k r lt s there (λ ks. has_key-append key (keys l) (k ∷ ks) there)
          (λ m l₁ below ready₁ asc₁ has₁. rec m l₁ (omega arith) (inl ready₁) asc₁ has₁) ready)
    where
      ltb_of_lt : ltb key k ≡ true
      ltb_of_lt = ground arith

  to_right :
      (n : ℕ) (c : Color) (l : Tree) (k : ℕ) (r : Tree)
      → ltb key k ≡ false
      → Removed n
          (color_is_red c)
          (remove_key key (keys (node c l k r)))
          (down_right fuel key (node c l k r))
      → Removed n
          (color_is_red c)
          (remove_key key (keys (node c l k r)))
          (remove_node (suc fuel) (node c l k r) key)
  unfolding remove_node
  to_right n c l k r ge h = rw (ge, remove_node) (h)

  level :
      (n : ℕ) (c : Color) (l : Tree) (k : ℕ) (r : Tree)
      → size (node c l k r) < suc (suc fuel)
      → IsReady n (node c l k r) ⊎ IsTilted key n (node c l k r)
      → IsAscending (keys (node c l k r))
      → has_key key (keys (node c l k r)) ≡ true
      → Removed n
          (color_is_red c)
          (remove_key key (keys (node c l k r)))
          (remove_node (suc fuel) (node c l k r) key)
  level n c l k r small (inl ready) s has = elim (Bool-cases (ltb key k)) [
    | inl lt ↦ to_left n c l k r (lt_of_ltb key k lt) small ready s has
    | inr ge ↦
        to_right n c l k r ge
          (down_right-Removed fuel key rec n c l k r small ready s has (le_of_ltb key k ge))
  ]
  level n red l k r small (inr tilt) s has = absurd tilt
  level zero black l k r small (inr tilt) s has = absurd tilt.0
  level (suc m) black l k r small (inr tilt) s has =
      to_right (suc m) black l k r (not_below tilt.1) (tilted fuel key rec m l k r small tilt s has)
    where
      not_below : k ≤ key → ltb key k ≡ false
      not_below le = ground arith

-- `remove` of a key that is in a subtree with a red link at its top: it succeeds.
pub remove_node-Removed : (fuel key : ℕ) → Below fuel key
remove_node-Removed fuel key n leaf small (inl ready) s has = absurd ready.2
remove_node-Removed fuel key n leaf small (inr tilt) s has = absurd tilt
remove_node-Removed zero key n (node c l k r) small ready s has = absurd (omega arith)
remove_node-Removed (suc fuel) key n (node red l k r) small ready s has =
    level fuel key (remove_node-Removed fuel key) n red l k r small ready s has
remove_node-Removed (suc fuel) key n (node black l k r) small ready s has =
    level fuel key (remove_node-Removed fuel key) n black l k r small ready s has
