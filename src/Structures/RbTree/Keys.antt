-- ===== src/Structures/RbTree/Keys.antt =====
-- The red-black tree holds a sorted set of keys: its rotations and its repair keep them.
use snu_projects.Base.{
  ℕ, ◌<◌, ◌≡◌, refl, ap, ap₂, sym, Bool, true, false, not, ◌&&◌, List, [], ◌∷◌, ◌++◌, Option, none,
  some, arith, ◌==◌, ltb, if◌then◌else◌, eq_of_==, ne_of_==, lt_of_ltb, le_of_ltb, Bool-cases, inl,
  inr,
}
use mathlib.Core.List.{append_assoc}
use snu_projects.Structures.Keys.{
  insert_key, has_key, IsAscending, IsAscending-split, insert_key-left, insert_key-right,
  insert_key-there, has_key-left, has_key-right, has_key-here,
}
use snu_projects.Structures.RbTree.{
  Color, Tree, leaf, node, is_red, flip_child, flip_color, rotate_right, rotate_left, left_of,
  right_of, and_then, when, lean, split, repair, with_left, with_right, insert_node, blacken,
  contains, fix_up,
}

-- The keys from left to right.
abbrev pub keys : Tree → List ℕ
keys leaf = []
keys (node c l k r) = keys l ++ (k ∷ keys r)

-- The keys of a result, if there is one.
abbrev pub HasKeys : List ℕ → Option Tree → Type 0
HasKeys ks none = Unit {0}
HasKeys ks (some t) = keys t ≡ ks

keys-flip_child : (t : Tree) → keys (flip_child t) ≡ keys t
keys-flip_child leaf = refl
keys-flip_child (node c l k r) = refl

pub keys-blacken : (t : Tree) → keys (blacken t) ≡ keys t
keys-blacken leaf = refl
keys-blacken (node c l k r) = refl

pub keys-flip_color : (t : Tree) → HasKeys (keys t) (flip_color t)
keys-flip_color leaf = tt
keys-flip_color (node c l k r) =
    ap₂ (λ ls rs. ls ++ (k ∷ rs)) (keys-flip_child l) (keys-flip_child r)

pub keys-rotate_right : (t : Tree) → HasKeys (keys t) (rotate_right t)
keys-rotate_right leaf = tt
keys-rotate_right (node c leaf k r) = tt
keys-rotate_right (node c (node cl ll kl lr) k r) =
    sym (append_assoc (keys ll) (kl ∷ keys lr) (k ∷ keys r))

pub keys-rotate_left : (t : Tree) → HasKeys (keys t) (rotate_left t)
keys-rotate_left leaf = tt
keys-rotate_left (node c l k leaf) = tt
keys-rotate_left (node c l k (node cr rl kr rr)) =
    append_assoc (keys l) (k ∷ keys rl) (kr ∷ keys rr)

keys-when :
    (test : Bool) (step : Tree → Option Tree) (t : Tree)
    → HasKeys (keys t) (step t)
    → HasKeys (keys t) (when test step t)
keys-when true step t h = h
keys-when false step t h = refl

keys-and_then :
    (ks : List ℕ) (o : Option Tree) (step : Tree → Option Tree)
    → HasKeys ks o
    → ((t : Tree) → HasKeys (keys t) (step t))
    → HasKeys ks (and_then o step)
keys-and_then ks none step e h = tt
keys-and_then ks (some t) step e h = rw (sym e) (h t)

keys-lean : (t : Tree) → HasKeys (keys t) (and_then (lean t) split)
keys-lean t =
    keys-and_then (keys t) (lean t) split (keys-when _ rotate_right t (keys-rotate_right t))
      λ n. keys-when _ flip_color n (keys-flip_color n)

keys-repair : (t : Tree) → HasKeys (keys t) (repair t)
unfolding repair
keys-repair t =
    keys-and_then (keys t) (when (is_red (right_of t) && not (is_red (left_of t))) rotate_left t)
      (λ n. and_then (lean n) split)
      (keys-when (is_red (right_of t) && not (is_red (left_of t))) rotate_left t
        (keys-rotate_left t))
      keys-lean

pub keys-fix_up : (t : Tree) → HasKeys (keys t) (fix_up t)
unfolding fix_up
keys-fix_up t =
    keys-and_then (keys t) (when (is_red (right_of t)) rotate_left t) (λ n. and_then (lean n) split)
      (keys-when (is_red (right_of t)) rotate_left t (keys-rotate_left t)) keys-lean

keys-with_left :
    (c : Color) (k : ℕ) (r : Tree) (ks : List ℕ) (o : Option Tree)
    → HasKeys ks o
    → HasKeys (ks ++ (k ∷ keys r)) (with_left c k r o)
unfolding with_left
keys-with_left c k r ks none e = tt
keys-with_left c k r ks (some l) e = ap (λ ls. ls ++ (k ∷ keys r)) e

keys-with_right :
    (c : Color) (l : Tree) (k : ℕ) (ks : List ℕ) (o : Option Tree)
    → HasKeys ks o
    → HasKeys (keys l ++ (k ∷ ks)) (with_right c l k o)
unfolding with_right
keys-with_right c l k ks none e = tt
keys-with_right c l k ks (some r) e = ap (λ rs. keys l ++ (k ∷ rs)) e

module _ (c : Color) (l : Tree) (k : ℕ) (r : Tree) (key : ℕ) (in_left in_right : Option Tree)
    (s : IsAscending (keys l ++ (k ∷ keys r))) (el : HasKeys (insert_key key (keys l)) in_left)
    (er : HasKeys (insert_key key (keys r)) in_right) where
  keys-into_node : HasKeys (insert_key key (keys l ++ (k ∷ keys r))) (
      if k == key
      then some (node c l k r)
      else if ltb key k
      then with_left c k r in_left
      else with_right c l k in_right)
  keys-into_node =
      let (asc_l, below, above, asc_r) = IsAscending-split (keys l) k (keys r) s in
      elim (Bool-cases (k == key)) [
        | inl e ↦
            rw e (rw (sym (eq_of_== k key e)) (sym (insert_key-there k (keys l) (keys r) below)))
        | inr e ↦ elim (Bool-cases (ltb key k)) [
          | inl lt ↦ rw e (
              rw lt (
                rw (insert_key-left key k (keys l) (keys r) (lt_of_ltb key k lt))
                  (keys-with_left c k r (insert_key key (keys l)) in_left el)))
          | inr ge ↦ rw e (
              rw ge (
                rw (insert_key-right key k (keys l) (keys r) (after e ge) below)
                  (keys-with_right c l k (insert_key key (keys r)) in_right er)))
        ]
      ]
    where
      after : k == key ≡ false → ltb key k ≡ false → k < key
      after e ge = let ne = ne_of_== k key e in let le = le_of_ltb key k ge in omega arith

-- The insertion puts the key in its place.
pub keys-insert_node :
    (t : Tree) (key : ℕ)
    → IsAscending (keys t)
    → HasKeys (insert_key key (keys t)) (insert_node t key)
unfolding insert_node insert_key
keys-insert_node leaf key s = refl
keys-insert_node (node c l k r) key s =
    let (asc_l, below, above, asc_r) = IsAscending-split (keys l) k (keys r) s in
    keys-and_then (insert_key key (keys (node c l k r)))
      (if k == key
        then some (node c l k r)
        else if ltb key k
        then with_left c k r (insert_node l key)
        else with_right c l k (insert_node r key))
      repair
      (keys-into_node c l k r key (insert_node l key) (insert_node r key) s
        (keys-insert_node l key asc_l) (keys-insert_node r key asc_r))
      keys-repair

-- `contains` on an ordered tree finds exactly its keys.
pub contains-has_key :
    (t : Tree) (key : ℕ) → IsAscending (keys t) → contains t key ≡ has_key key (keys t)
unfolding contains
contains-has_key leaf key s = refl
contains-has_key (node c l k r) key s =
    let (asc_l, below, above, asc_r) = IsAscending-split (keys l) k (keys r) s in
    ground (
      arith,
      contains-has_key l key asc_l,
      contains-has_key r key asc_r,
      has_key-left key k (keys l) (keys r),
      has_key-right key k (keys l) (keys r),
      has_key-here k (keys l) (keys r),
    )
