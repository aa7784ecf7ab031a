-- ===== src/Structures/RbTree/Remove/Steps.antt =====
-- What `fix_up` makes of a node after a removal below it.
use snu_projects.Base.{ℕ, suc, ◌≡◌, ◌≢◌, refl, ap, subst, Bool, false, List, Option, none, some}
use mathlib.Core.Bool.{false≢true}
use snu_projects.Structures.RbTree.{Color, red, black, Tree, leaf, node, is_red, fix_up}
use snu_projects.Structures.RbTree.Keys.{keys, HasKeys, keys-fix_up}
use snu_projects.Structures.RbTree.Invariant.{
  IsBalanced, IsLeaning, above, color_is_red, IsBalanced-node,
}

-- A subtree after a removal: balanced as before, leaning, and black where it was black.
abbrev pub Kept : ℕ → Bool → Option Tree → Type 0
Kept n was_red none = ⊥
Kept n was_red (some t) = IsBalanced n t × IsLeaning t × (was_red ≡ false → is_red t ≡ false)

-- The same, and its keys.
abbrev pub Removed : ℕ → Bool → List ℕ → Option Tree → Type 0
Removed n was_red ks o = Kept n was_red o × HasKeys ks o

Kept-node :
    (c : Color) (m : ℕ) (l : Tree) (k : ℕ) (r : Tree)
    → IsBalanced m l
    → IsBalanced m r
    → IsLeaning l
    → IsLeaning r
    → (c ≡ red → is_red l ≡ false)
    → is_red r ≡ false
    → Kept (above c m) (color_is_red c) (some (node c l k r))
Kept-node red m l k r bl br hl hr left_off off =
    (IsBalanced-node red m l k r bl br, (left_off refl, off, hl, hr), λ e. e)
Kept-node black m l k r bl br hl hr left_off off =
    (IsBalanced-node black m l k r bl br, (off, hl, hr), λ e. refl)

-- No right child is red and no left child below a red one: nothing is done.
pub fix_settled :
    (c : Color) (m : ℕ) (l : Tree) (k : ℕ) (r : Tree)
    → IsBalanced m l
    → IsBalanced m r
    → IsLeaning l
    → IsLeaning r
    → (c ≡ red → is_red l ≡ false)
    → is_red r ≡ false
    → Kept (above c m) (color_is_red c) (fix_up (node c l k r))
unfolding fix_up
fix_settled c m leaf k r bl br hl hr left_off off =
    rw off (Kept-node c m leaf k r bl br hl hr left_off off)
fix_settled c m (node black a x b) k r bl br hl hr left_off off =
    rw off (Kept-node c m (node black a x b) k r bl br hl hr left_off off)
fix_settled c m (node red a x b) k r bl br hl hr left_off off =
    rw off (rw hl.0 (rw off (Kept-node c m (node red a x b) k r bl br hl hr left_off off)))

pub black≢red : black ≢ red
black≢red e = false≢true (ap color_is_red e)

Kept-if : (n : ℕ) (was_red : Bool) (o : Option Tree) → Kept n false o → Kept n was_red o
Kept-if n was_red none h = h
Kept-if n was_red (some t) h = (h.0, h.1, λ e. h.2 refl)

-- A black node with leaning subtrees: it stays black if its left child is black.
pub fix_black :
    (m : ℕ) (l : Tree) (k : ℕ) (r : Tree)
    → IsBalanced m l
    → IsBalanced m r
    → IsLeaning l
    → IsLeaning r
    → Kept (suc m) (is_red l) (fix_up (node black l k r))
unfolding fix_up
fix_black m l k leaf bl br hl hr =
    Kept-if (suc m) (is_red l) (fix_up (node black l k leaf))
      (fix_settled black m l k leaf bl br hl hr (λ e. absurd (black≢red e)) refl)
fix_black m l k (node black a x b) bl br hl hr =
    Kept-if (suc m) (is_red l) (fix_up (node black l k (node black a x b)))
      (fix_settled black m l k (node black a x b) bl br hl hr (λ e. absurd (black≢red e)) refl)
fix_black m leaf k (node red a x b) bl br hl hr =
    rw hr.1 (((bl, br.0), br.1), (hr.1, (refl, hr.0, tt, hr.2), hr.3), λ e. refl)
fix_black m (node black la y lb) k (node red a x b) bl br hl hr =
    rw hr.1 (((bl, br.0), br.1), (hr.1, (refl, hr.0, hl, hr.2), hr.3), λ e. refl)
fix_black m (node red la y lb) k (node red a x b) bl br hl hr =
    ((bl, br), (refl, refl, (hl.1, hl.2, hl.3), (hr.1, hr.2, hr.3)), λ e. e)

-- A result of `fix_up` with the keys below it.
pub with_keys :
    (n : ℕ) (was_red : Bool) (ks : List ℕ) (t : Tree)
    → keys t ≡ ks
    → Kept n was_red (fix_up t)
    → Removed n was_red ks (fix_up t)
with_keys n was_red ks t e kept = (kept, subst (λ ks. HasKeys ks (fix_up t)) e (keys-fix_up t))
