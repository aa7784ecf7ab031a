-- ===== src/Structures/RbTree/Insert.antt =====
-- Insertion into a left-leaning red-black tree keeps its invariant.
use snu_projects.Base.{
  ℕ, zero, suc, ◌≡◌, refl, ap, ◌∙◌, false, List, Option, none, some, ◌==◌, ltb, if◌then◌else◌, inl,
  inr, Bool-cases,
}
use mathlib.Core.Bool.{false≢true}
use snu_projects.Structures.RbTree.{
  Color, red, black, Tree, leaf, node, is_red, and_then, repair, with_left, with_right, insert_node,
  insert, blacken,
}
use snu_projects.Structures.Keys.{insert_key, IsAscending}
use snu_projects.Structures.RbTree.Keys.{keys, HasKeys, keys-blacken, keys-insert_node}
use snu_projects.Structures.RbTree.Invariant.{
  IsBalanced, IsLeaning, IsAlmost, Repaired, above, color_is_red, repair_left, repair_right,
  IsAlmost-of_IsLeaning,
}

-- One level of the insertion, whatever the subtrees became.
module _ (c : Color) (m : ℕ) (l : Tree) (k : ℕ) (r : Tree) (bl : IsBalanced m l)
    (br : IsBalanced m r) (hl : IsLeaning l) (hr : IsLeaning r)
    (left_off : c ≡ red → is_red l ≡ false) (off : is_red r ≡ false) where
  into_left :
      (o : Option Tree)
      → Repaired m (is_red l) o
      → Repaired (above c m) (color_is_red c) (and_then (with_left c k r o) repair)
  unfolding with_left
  into_left none rep = rep
  into_left (some t) rep = repair_left c m t k r rep.0 br rep.1 (λ e. rep.2 (left_off e)) off hr

  into_right :
      (o : Option Tree)
      → Repaired m (is_red r) o
      → Repaired (above c m) (color_is_red c) (and_then (with_right c l k o) repair)
  unfolding with_right
  into_right none rep = rep
  into_right (some t) rep = repair_right c m l k t bl rep.0 hl left_off (rep.2 off)

  here : Repaired (above c m) (color_is_red c) (repair (node c l k r))
  here = repair_left c m l k r bl br (IsAlmost-of_IsLeaning l hl) (λ e. hl) off hr

  module _ (key : ℕ) (in_left in_right : Option Tree) where
    into_node :
        Repaired m (is_red l) in_left
        → Repaired m (is_red r) in_right
        → Repaired (above c m) (color_is_red c) (
            and_then
              (if k == key
                then some (node c l k r)
                else if ltb key k
                then with_left c k r in_left
                else with_right c l k in_right)
              repair)
    into_node rl rr = elim (Bool-cases (k == key)) [
      | inl e ↦ rw e (here)
      | inr e ↦ elim (Bool-cases (ltb key k)) [
        | inl lt ↦ rw e (rw lt (into_left in_left rl))
        | inr ge ↦ rw e (rw ge (into_right in_right rr))
      ]
    ]

-- `RBNode::insert` succeeds on a balanced leaning subtree; the subtree stays balanced.
pub insert_node-Repaired :
    (n : ℕ) (t : Tree) (key : ℕ)
    → IsBalanced n t
    → IsLeaning t
    → Repaired n (is_red t) (insert_node t key)
unfolding insert_node
insert_node-Repaired n leaf key b h = ((b, b), (refl, tt, tt), λ e. (refl, refl, tt, tt))
insert_node-Repaired n (node red l k r) key b h =
    into_node red n l k r b.0 b.1 h.2 h.3 (λ e. h.0) h.1 key (insert_node l key) (insert_node r key)
      (insert_node-Repaired n l key b.0 h.2) (insert_node-Repaired n r key b.1 h.3)
insert_node-Repaired zero (node black l k r) key b h = absurd b
insert_node-Repaired (suc n) (node black l k r) key b h =
    into_node black n l k r b.0 b.1 h.1 h.2 (λ e. absurd (false≢true (ap color_is_red e))) h.0 key
      (insert_node l key) (insert_node r key) (insert_node-Repaired n l key b.0 h.1)
      (insert_node-Repaired n r key b.1 h.2)

pub blacken_lem :
    (n : ℕ) (t : Tree)
    → IsBalanced n t
    → IsAlmost t
    → (m : ℕ) × IsBalanced m (blacken t) × IsLeaning (blacken t) × (is_red (blacken t) ≡ false)
blacken_lem n leaf b a = (n, b, tt, refl)
blacken_lem n (node red l k r) b a = (suc n, b, a, refl)
blacken_lem zero (node black l k r) b a = absurd b
blacken_lem (suc n) (node black l k r) b a = (suc n, b, a, refl)

-- A valid red-black tree that holds these keys.
abbrev pub Holds : List ℕ → Option Tree → Type 0
Holds ks o =
    (t : Tree) × (m : ℕ) × (o ≡ some t)
    × IsBalanced m t
    × IsLeaning t
    × (is_red t ≡ false)
    × (keys t ≡ ks)

-- `insert` on a balanced leaning tree with ascending keys succeeds, for every key: the new tree
-- is balanced and leaning, its root is black, and its keys are the old ones with the new key in
-- its place.
pub insert-IsBalanced :
    (n : ℕ) (t : Tree) (key : ℕ)
    → IsBalanced n t
    → IsLeaning t
    → IsAscending (keys t)
    → Holds (insert_key key (keys t)) (insert t key)
unfolding insert insert_node insert_key
insert-IsBalanced n leaf key b h s =
    (node black leaf key leaf, suc zero, refl, (refl, refl), (refl, tt, tt), refl, refl)
insert-IsBalanced n (node c l k r) key b h s =
    root (insert_node (node c l k r) key) (insert_node-Repaired n (node c l k r) key b h)
      (keys-insert_node (node c l k r) key s)
  where
    root :
        (o : Option Tree)
        → Repaired n (is_red (node c l k r)) o
        → HasKeys (insert_key key (keys (node c l k r))) o
        → Holds (insert_key key (keys (node c l k r))) (and_then o (λ t. some (blacken t)))
    root none rep e = absurd rep
    root (some t) rep e =
        let (m, bal, lean, off) = blacken_lem n t rep.0 rep.1 in
        (blacken t, m, refl, bal, lean, off, keys-blacken t ∙ e)
