-- ===== src/Structures/RbTree/Remove/Root.antt =====
-- Removal from a whole tree, whose root is blackened at the end.
use snu_projects.Base.{
  ℕ, zero, suc, ◌≡◌, refl, sym, ap, subst, ◌∙◌, Bool, true, false, List, Option, none, some, arith,
  inl, inr, Bool-cases,
}
use mathlib.Core.Bool.{false≢true}
use snu_projects.Structures.Keys.{remove_key, has_key, IsAscending}
use snu_projects.Structures.RbTree.{Color, red, black, Tree, leaf, node, is_red, blacken, and_then}
use snu_projects.Structures.RbTree.Keys.{keys, keys-blacken}
use snu_projects.Structures.RbTree.Invariant.{IsBalanced, IsLeaning, IsAlmost-of_IsLeaning}
use snu_projects.Structures.RbTree.Insert.{Holds, blacken_lem}
use snu_projects.Structures.RbTree.Remove.{size, remove_node, remove, remove_min, remove_least}
use snu_projects.Structures.RbTree.Remove.Steps.{Removed}
use snu_projects.Structures.RbTree.Remove.Descend.{IsReady}
use snu_projects.Structures.RbTree.Remove.Least.{first, remove_min-Removed}
use snu_projects.Structures.RbTree.Remove.Recolor.{
  remove_node-flip_child, remove_min-flip_child, blacken-each,
}
use snu_projects.Structures.RbTree.Remove.Valid.{remove_node-Removed}

blackened :
    (n : ℕ) (was_red : Bool) (ks : List ℕ) (o : Option Tree)
    → Removed n was_red ks o
    → Holds ks (and_then o (λ t. some (blacken t)))
blackened n was_red ks none rem = absurd rem.0
blackened n was_red ks (some t) rem =
    let (m, bal, lean, off) = blacken_lem n t rem.0.0 (IsAlmost-of_IsLeaning t rem.0.1) in
    (blacken t, m, refl, bal, lean, off, keys-blacken t ∙ rem.1)

-- A tree is removed from as it is, or with its black root made red, which lets the removal go down
-- into it.
module _ (run : Tree → Option Tree) (ks : List ℕ) where
  at_root :
      (n : ℕ) (c : Color) (l : Tree) (k : ℕ) (r : Tree)
      → IsBalanced n (node c l k r)
      → IsLeaning (node c l k r)
      → ((m : ℕ) (c₁ : Color)
          → IsReady m (node c₁ l k r)
          → Removed m (is_red (node c₁ l k r)) ks (run (node c₁ l k r)))
      → (and_then (run (node black l k r)) (λ t. some (blacken t))
          ≡ and_then (run (node red l k r)) (λ t. some (blacken t)))
      → Holds ks (and_then (run (node c l k r)) (λ t. some (blacken t)))
  at_root n red l k r b h below same =
      blackened n true ks (run (node red l k r)) (below n red (b, h, tt))
  at_root zero black l k r b h below same = absurd b
  at_root (suc n) black l k r b h below same = elim (Bool-cases (is_red l)) [
    | inl e ↦ blackened (suc n) false ks (run (node black l k r)) (below (suc n) black (b, h, e))
    | inr e ↦
        subst (Holds ks) (sym same)
          (blackened n true ks (run (node red l k r)) (below n red (b, (e, h.0, h.1, h.2), tt)))
  ]

-- `remove` of a key that is in a balanced leaning tree with ascending keys succeeds: the new
-- tree is balanced and leaning, its root is not red, and its keys are the old ones without that
-- key.
pub remove-IsBalanced :
    (n : ℕ) (t : Tree) (key : ℕ)
    → IsBalanced n t
    → IsLeaning t
    → IsAscending (keys t)
    → has_key key (keys t) ≡ true
    → Holds (remove_key key (keys t)) (remove t key)
unfolding remove
remove-IsBalanced n leaf key b h s has = absurd (false≢true has)
remove-IsBalanced n (node c l k r) key b h s has =
    at_root (λ t. remove_node fuel t key) (remove_key key (keys (node c l k r))) n c l k r b h
      (λ m c₁ ready. remove_node-Removed fuel key m (node c₁ l k r) (omega arith) (inl ready) s has)
      (ap (λ o. and_then o (λ t. some (blacken t)))
          (remove_node-flip_child fuel key (node red l k r))
        ∙ blacken-each (remove_node fuel (node red l k r) key))
  where
    fuel : ℕ
    fuel = size (node c l k r)

-- `remove_min` of a balanced leaning tree with ascending keys that is not empty ends, with the
-- number of nodes as fuel: the new tree is balanced and leaning, its root is not red, and its
-- keys are the old ones without the least.
pub remove_least-IsBalanced :
    (n : ℕ) (t : Tree) (least : ℕ)
    → IsBalanced n t
    → IsLeaning t
    → IsAscending (keys t)
    → first (keys t) ≡ some least
    → Holds (remove_key least (keys t)) (remove_least t)
unfolding remove_least
remove_least-IsBalanced n leaf least b h s e = ground arith
remove_least-IsBalanced n (node c l k r) least b h s e =
    at_root (λ t. remove_min fuel t) (remove_key least (keys (node c l k r))) n c l k r b h
      (λ m c₁ ready. remove_min-Removed fuel m (node c₁ l k r) least (omega arith) ready s e)
      (ap (λ o. and_then o (λ t. some (blacken t))) (remove_min-flip_child fuel (node red l k r))
        ∙ blacken-each (remove_min fuel (node red l k r)))
  where
    fuel : ℕ
    fuel = size (node c l k r)
