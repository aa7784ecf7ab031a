-- ===== src/Structures/RbTree/Invariant.antt =====
-- The invariant of a left-leaning red-black tree, and what repairs it on the way up.
use snu_projects.Base.{ℕ, zero, suc, ◌≡◌, refl, sym, Bool, true, false, Option, none, some}
use mathlib.Core.Bool.{false≢true}
use snu_projects.Structures.RbTree.{
  Color, red, black, Tree, leaf, node, is_red, and_then, lean, split, repair,
}

-- Every path down to a leaf passes `n` black nodes.
abbrev pub IsBalanced : ℕ → Tree → Type 0
IsBalanced n leaf = n ≡ 0
IsBalanced n (node red l k r) = IsBalanced n l × IsBalanced n r
IsBalanced zero (node black l k r) = ⊥
IsBalanced (suc n) (node black l k r) = IsBalanced n l × IsBalanced n r

-- No right child is red, and no red node has a red left child.
abbrev pub IsLeaning : Tree → Type 0
IsLeaning leaf = Unit {0}
IsLeaning (node red l k r) = (is_red l ≡ false) × (is_red r ≡ false) × IsLeaning l × IsLeaning r
IsLeaning (node black l k r) = (is_red r ≡ false) × IsLeaning l × IsLeaning r

-- The same, but the root and its left child may both be red.
abbrev pub IsAlmost : Tree → Type 0
IsAlmost leaf = Unit {0}
IsAlmost (node c l k r) = (is_red r ≡ false) × IsLeaning l × IsLeaning r

-- A subtree after a step: balanced as before, almost leaning, and leaning where it was black.
abbrev pub Repaired : ℕ → Bool → Option Tree → Type 0
Repaired n was_red none = ⊥
Repaired n was_red (some t) = IsBalanced n t × IsAlmost t × (was_red ≡ false → IsLeaning t)

-- The black nodes on a path through a node of this color with `m` below it.
abbrev pub above : Color → ℕ → ℕ
above red m = m
above black m = suc m

abbrev pub color_is_red : Color → Bool
color_is_red red = true
color_is_red black = false

pub IsBalanced-node :
    (c : Color) (m : ℕ) (l : Tree) (k : ℕ) (r : Tree)
    → IsBalanced m l
    → IsBalanced m r
    → IsBalanced (above c m) (node c l k r)
IsBalanced-node red m l k r bl br = (bl, br)
IsBalanced-node black m l k r bl br = (bl, br)

pub IsAlmost-of_IsLeaning : (t : Tree) → IsLeaning t → IsAlmost t
IsAlmost-of_IsLeaning leaf h = tt
IsAlmost-of_IsLeaning (node red l k r) h = (h.1, h.2, h.3)
IsAlmost-of_IsLeaning (node black l k r) h = h

-- A node that needs no repair.
module _ (c : Color) (m : ℕ) (l : Tree) (k : ℕ) (r : Tree) (bl : IsBalanced m l)
    (br : IsBalanced m r) (hl : IsLeaning l) (off : is_red r ≡ false) (hr : IsLeaning r) where
  settled : Repaired (above c m) (color_is_red c) (some (node c l k r))
  settled = (IsBalanced-node c m l k r bl br, (off, hl, hr), leaning c)
    where
      leaning : (c : Color) → color_is_red c ≡ false → IsLeaning (node c l k r)
      leaning red e = absurd (false≢true (sym e))
      leaning black e = (off, hl, hr)

-- The last two tests on a node whose left subtree has been repaired.
lean_left :
    (c : Color) (m : ℕ) (l : Tree) (k : ℕ) (r : Tree)
    → IsBalanced m l
    → IsBalanced m r
    → IsAlmost l
    → (c ≡ red → IsLeaning l)
    → is_red r ≡ false
    → IsLeaning r
    → Repaired (above c m) (color_is_red c) (and_then (lean (node c l k r)) split)
lean_left c m leaf k r bl br al ll off hr = settled c m leaf k r bl br tt off hr
lean_left c m (node black a x b) k r bl br al ll off hr =
    settled c m (node black a x b) k r bl br al off hr
lean_left c m (node red leaf x b) k r bl br al ll off hr =
    rw off (settled c m (node red leaf x b) k r bl br (refl, al.0, tt, al.2) off hr)
lean_left c m (node red (node black a y d) x b) k r bl br al ll off hr =
    rw off (settled c m (node red (node black a y d) x b) k r bl br (refl, al.0, al.1, al.2) off hr)
lean_left red m (node red (node red a y d) x b) k r bl br al ll off hr =
    absurd (false≢true (sym (ll refl).0))
lean_left black m (node red (node red a y d) x b) k r bl br al ll off hr = (
  (bl.0, (bl.1, br)),
  (refl, (al.1.1, al.1.2, al.1.3), (off, al.2, hr)),
  λ e. (refl, refl, (al.1.1, al.1.2, al.1.3), (off, al.2, hr)),
)

-- `repair` after a change of the left subtree.
pub repair_left :
    (c : Color) (m : ℕ) (l : Tree) (k : ℕ) (r : Tree)
    → IsBalanced m l
    → IsBalanced m r
    → IsAlmost l
    → (c ≡ red → IsLeaning l)
    → is_red r ≡ false
    → IsLeaning r
    → Repaired (above c m) (color_is_red c) (repair (node c l k r))
unfolding repair
repair_left c m l k r bl br al ll off hr = rw off (lean_left c m l k r bl br al ll off hr)

-- `repair` after a change of the right subtree, which was black.
pub repair_right :
    (c : Color) (m : ℕ) (l : Tree) (k : ℕ) (r : Tree)
    → IsBalanced m l
    → IsBalanced m r
    → IsLeaning l
    → (c ≡ red → is_red l ≡ false)
    → IsLeaning r
    → Repaired (above c m) (color_is_red c) (repair (node c l k r))
unfolding repair
repair_right c m l k leaf bl br hl ll hr =
    lean_left c m l k leaf bl br (IsAlmost-of_IsLeaning l hl) (λ e. hl) refl hr
repair_right c m l k (node black a x b) bl br hl ll hr =
    lean_left c m l k (node black a x b) bl br (IsAlmost-of_IsLeaning l hl) (λ e. hl) refl hr
repair_right c m leaf k (node red a x b) bl br hl ll hr =
    lean_left c m (node red leaf k a) x b (bl, br.0) br.1 (hr.0, tt, hr.2)
      (λ e. (refl, hr.0, tt, hr.2)) hr.1 hr.3
repair_right c m (node black la y lb) k (node red a x b) bl br hl ll hr =
    lean_left c m (node red (node black la y lb) k a) x b (bl, br.0) br.1 (hr.0, hl, hr.2)
      (λ e. (refl, hr.0, hl, hr.2)) hr.1 hr.3
repair_right red m (node red la y lb) k (node red a x b) bl br hl ll hr =
    absurd (false≢true (sym (ll refl)))
repair_right black m (node red la y lb) k (node red a x b) bl br hl ll hr = rw hl.0 (
  (bl, br),
  (refl, (hl.1, hl.2, hl.3), (hr.1, hr.2, hr.3)),
  λ e. (refl, refl, (hl.1, hl.2, hl.3), (hr.1, hr.2, hr.3)),
)
