-- ===== src/Structures/RbTree/Remove/Recolor.antt =====
-- The color of the root is carried along by a removal: no test reads it, so the removal from a tree
-- with the other color at its root gives the same tree with the other color at its root.
use snu_projects.Base.{
  ℕ, zero, suc, ◌≡◌, refl, ap, ◌∙◌, Bool, true, false, not, ◌&&◌, Option, none, some, ◌==◌, ltb,
}
use snu_projects.Structures.RbTree.{
  Color, other, Tree, leaf, node, is_red, flip_child, flip_color, rotate_right, rotate_left,
  left_of, right_of, and_then, when, lean, split, with_left, with_right, fix_up, leftmost_key,
  blacken,
}
use snu_projects.Structures.RbTree.Remove.{
  is_null, key_of, on_left, on_right, move_red_left, move_red_right, prepare_left, prepare_right,
  pull_right, take_right, remove_node, remove_min, with_key,
}

abbrev pub each : Option Tree → Option Tree
each none = none
each (some t) = some (flip_child t)

abbrev Commutes : (Tree → Option Tree) → Type 0
Commutes step = (t : Tree) → step (flip_child t) ≡ each (step t)

and_then-each :
    (o flipped : Option Tree) (step : Tree → Option Tree)
    → flipped ≡ each o
    → Commutes step
    → and_then flipped step ≡ each (and_then o step)
and_then-each none flipped step e h = ap (λ p. and_then p step) e
and_then-each (some t) flipped step e h = ap (λ p. and_then p step) e ∙ h t

when-Commutes :
    (test : Bool) (step : Tree → Option Tree) → Commutes step → Commutes (when test step)
when-Commutes true step h t = h t
when-Commutes false step h t = refl

then-Commutes :
    (first second : Tree → Option Tree)
    → Commutes first
    → Commutes second
    → Commutes (λ n. and_then (first n) second)
then-Commutes first second hf hs t = and_then-each (first t) (first (flip_child t)) second (hf t) hs

choose-each :
    (test : Bool) (x y x₁ y₁ : Option Tree)
    → x₁ ≡ each x
    → y₁ ≡ each y
    → (elim test as (λ b. Option Tree) [ true ↦ x₁ | false ↦ y₁ ])
      ≡ each (elim test as (λ b. Option Tree) [ true ↦ x | false ↦ y ])
choose-each true x y x₁ y₁ ex ey = ex
choose-each false x y x₁ y₁ ex ey = ey

rotate_right-Commutes : Commutes rotate_right
rotate_right-Commutes leaf = refl
rotate_right-Commutes (node c leaf k r) = refl
rotate_right-Commutes (node c (node cl ll kl lr) k r) = refl

rotate_left-Commutes : Commutes rotate_left
rotate_left-Commutes leaf = refl
rotate_left-Commutes (node c l k leaf) = refl
rotate_left-Commutes (node c l k (node cr rl kr rr)) = refl

flip_color-Commutes : Commutes flip_color
flip_color-Commutes leaf = refl
flip_color-Commutes (node c l k r) = refl

lean-Commutes : Commutes lean
lean-Commutes leaf = refl
lean-Commutes (node c l k r) =
    when-Commutes (is_red l && is_red (left_of l)) rotate_right rotate_right-Commutes (node c l k r)

split-Commutes : Commutes split
split-Commutes leaf = refl
split-Commutes (node c l k r) =
    when-Commutes (is_red l && is_red r) flip_color flip_color-Commutes (node c l k r)

straighten-Commutes : Commutes (λ n. when (is_red (right_of n)) rotate_left n)
straighten-Commutes leaf = refl
straighten-Commutes (node c l k r) =
    when-Commutes (is_red r) rotate_left rotate_left-Commutes (node c l k r)

fix_up-Commutes : Commutes fix_up
unfolding fix_up
fix_up-Commutes =
    then-Commutes (λ n. when (is_red (right_of n)) rotate_left n) (λ n. and_then (lean n) split)
      straighten-Commutes (then-Commutes lean split lean-Commutes split-Commutes)

with_left-each :
    (c : Color) (k : ℕ) (r : Tree) (o : Option Tree)
    → with_left (other c) k r o ≡ each (with_left c k r o)
unfolding with_left
with_left-each c k r none = refl
with_left-each c k r (some l) = refl

with_right-each :
    (c : Color) (l : Tree) (k : ℕ) (o : Option Tree)
    → with_right (other c) l k o ≡ each (with_right c l k o)
unfolding with_right
with_right-each c l k none = refl
with_right-each c l k (some r) = refl

on_left-Commutes : (step : Tree → Option Tree) → Commutes (on_left step)
unfolding on_left
on_left-Commutes step leaf = refl
on_left-Commutes step (node c l k r) = with_left-each c k r (step l)

on_right-Commutes : (step : Tree → Option Tree) → Commutes (on_right step)
unfolding on_right
on_right-Commutes step leaf = refl
on_right-Commutes step (node c l k r) = with_right-each c l k (step r)

move_red_right-Commutes : Commutes move_red_right
unfolding move_red_right
move_red_right-Commutes leaf = refl
move_red_right-Commutes (node c leaf k r) = refl
move_red_right-Commutes (node c (node cl ll kl lr) k r) =
    then-Commutes flip_color (when (is_red ll) (λ n. and_then (rotate_right n) flip_color))
      flip_color-Commutes
      (when-Commutes (is_red ll) (λ n. and_then (rotate_right n) flip_color)
        (then-Commutes rotate_right flip_color rotate_right-Commutes flip_color-Commutes))
      (node c (node cl ll kl lr) k r)

move_red_left-Commutes : Commutes move_red_left
unfolding move_red_left
move_red_left-Commutes leaf = refl
move_red_left-Commutes (node c l k leaf) = refl
move_red_left-Commutes (node c l k (node cr rl kr rr)) =
    then-Commutes flip_color (when (is_red rl) turn) flip_color-Commutes
      (when-Commutes (is_red rl) turn (
        then-Commutes (on_right rotate_right) (λ n. and_then (rotate_left n) flip_color)
          (on_right-Commutes rotate_right)
          (then-Commutes rotate_left flip_color rotate_left-Commutes flip_color-Commutes)))
      (node c l k (node cr rl kr rr))
  where
    turn : Tree → Option Tree
    turn n = and_then (on_right rotate_right n) λ n₁. and_then (rotate_left n₁) flip_color

prepare_left-Commutes : Commutes prepare_left
unfolding prepare_left
prepare_left-Commutes leaf = refl
prepare_left-Commutes (node c leaf k r) = refl
prepare_left-Commutes (node c (node cl ll kl lr) k r) =
    when-Commutes (not (is_red (node cl ll kl lr)) && not (is_red ll)) move_red_left
      move_red_left-Commutes (node c (node cl ll kl lr) k r)

prepare_right-Commutes : Commutes prepare_right
unfolding prepare_right
prepare_right-Commutes leaf = refl
prepare_right-Commutes (node c l k leaf) = refl
prepare_right-Commutes (node c l k (node cr rl kr rr)) =
    when-Commutes (not (is_red (node cr rl kr rr)) && not (is_red rl)) move_red_right
      move_red_right-Commutes (node c l k (node cr rl kr rr))

pull_right-Commutes : Commutes pull_right
pull_right-Commutes leaf = refl
pull_right-Commutes (node c l k r) =
    when-Commutes (is_red l) rotate_right rotate_right-Commutes (node c l k r)

with_key-each :
    (c : Color) (l : Tree) (k : Option ℕ) (o : Option Tree)
    → with_key (other c) l k o ≡ each (with_key c l k o)
unfolding with_key
with_key-each c l none o = refl
with_key-each c l (some k) o = with_right-each c l k o

module _ (fuel key : ℕ) where
  take_right-Commutes : Commutes (take_right (λ r₁. remove_node fuel r₁ key) fuel key)
  unfolding take_right
  take_right-Commutes leaf = refl
  take_right-Commutes (node c l k r) =
      choose-each (key == k) (with_key c l (leftmost_key r) (remove_min fuel r))
        (with_right c l k (remove_node fuel r key))
        (with_key (other c) l (leftmost_key r) (remove_min fuel r))
        (with_right (other c) l k (remove_node fuel r key))
        (with_key-each c l (leftmost_key r) (remove_min fuel r))
        (with_right-each c l k (remove_node fuel r key))

  abbrev taken : Tree → Option Tree
  taken n =
      and_then (prepare_right n)
        λ n₁. and_then (take_right (λ r₁. remove_node fuel r₁ key) fuel key n₁) fix_up

  abbrev onward : Tree → Option Tree
  onward n = elim ((key == key_of n) && is_null (right_of n)) as (λ b. Option Tree) [
    | true ↦ some leaf
    | false ↦ taken n
  ]

  taken-Commutes : Commutes taken
  taken-Commutes =
      then-Commutes prepare_right
        (λ n. and_then (take_right (λ r₁. remove_node fuel r₁ key) fuel key n) fix_up)
        prepare_right-Commutes
        (then-Commutes (take_right (λ r₁. remove_node fuel r₁ key) fuel key) fix_up
          take_right-Commutes fix_up-Commutes)

  onward-Commutes : Commutes onward
  onward-Commutes leaf =
      choose-each ((key == 0) && true) (some leaf) (taken leaf) (some leaf) (taken leaf) refl
        (taken-Commutes leaf)
  onward-Commutes (node c l k r) =
      choose-each ((key == k) && is_null r) (some leaf) (taken (node c l k r)) (some leaf)
        (taken (node (other c) l k r)) refl (taken-Commutes (node c l k r))

-- `remove` at a node of the other color.
pub remove_node-flip_child :
    (fuel key : ℕ) (t : Tree) → remove_node fuel (flip_child t) key ≡ each (remove_node fuel t key)
unfolding remove_node
remove_node-flip_child zero key t = refl
remove_node-flip_child (suc fuel) key leaf = refl
remove_node-flip_child (suc fuel) key (node c l k r) =
    choose-each (ltb key k)
      (and_then (prepare_left (node c l k r))
        (λ n. and_then (on_left (λ l₁. remove_node fuel l₁ key) n) fix_up))
      (and_then (pull_right (node c l k r)) (onward fuel key))
      (and_then (prepare_left (node (other c) l k r))
        (λ n. and_then (on_left (λ l₁. remove_node fuel l₁ key) n) fix_up))
      (and_then (pull_right (node (other c) l k r)) (onward fuel key))
      (then-Commutes prepare_left (λ n. and_then (on_left (λ l₁. remove_node fuel l₁ key) n) fix_up)
        prepare_left-Commutes
        (then-Commutes (on_left (λ l₁. remove_node fuel l₁ key)) fix_up
          (on_left-Commutes (λ l₁. remove_node fuel l₁ key)) fix_up-Commutes)
        (node c l k r))
      (then-Commutes pull_right (onward fuel key) pull_right-Commutes (onward-Commutes fuel key)
        (node c l k r))

pub remove_min-flip_child :
    (fuel : ℕ) (t : Tree) → remove_min fuel (flip_child t) ≡ each (remove_min fuel t)
unfolding remove_min
remove_min-flip_child zero t = refl
remove_min-flip_child (suc fuel) leaf = refl
remove_min-flip_child (suc fuel) (node c leaf k r) = refl
remove_min-flip_child (suc fuel) (node c (node cl ll kl lr) k r) =
    then-Commutes prepare_left (λ n. and_then (on_left (remove_min fuel) n) fix_up)
      prepare_left-Commutes
      (then-Commutes (on_left (remove_min fuel)) fix_up (on_left-Commutes (remove_min fuel))
        fix_up-Commutes)
      (node c (node cl ll kl lr) k r)

pub blacken-each :
    (o : Option Tree)
    → and_then (each o) (λ n. some (blacken n)) ≡ and_then o (λ n. some (blacken n))
blacken-each none = refl
blacken-each (some leaf) = refl
blacken-each (some (node c l k r)) = refl
