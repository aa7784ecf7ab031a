-- ===== src/Structures/RbTree/Remove/Descend.antt =====
-- One level of a removal from the left subtree, where a red link is first moved to the left.
use snu_projects.Base.{
  ℕ, zero, suc, ◌<◌, ◌≡◌, refl, sym, ap, subst, ◌∙◌, Bool, true, false, List, ◌∷◌, ◌++◌, Option,
  none, some, arith,
}
use mathlib.Core.Bool.{false≢true}
use mathlib.Core.List.{append_assoc}
use snu_projects.Structures.Keys.{
  remove_key, IsAscending, IsAscending-split, remove_key-left, lt_of_AllBelow,
}
use snu_projects.Structures.RbTree.{
  Color, red, black, Tree, leaf, node, is_red, and_then, with_left, fix_up,
}
use snu_projects.Structures.RbTree.Keys.{keys}
use snu_projects.Structures.RbTree.Invariant.{IsBalanced, IsLeaning, above, color_is_red}
use snu_projects.Structures.RbTree.Remove.{size, prepare_left, move_red_left, on_left, on_right}
use snu_projects.Structures.RbTree.Remove.Steps.{
  Kept, Removed, fix_settled, fix_black, with_keys, black≢red,
}

-- The node or its left child is red.
abbrev pub HasRed : Tree → Type 0
HasRed leaf = ⊥
HasRed (node red l k r) = Unit {0}
HasRed (node black l k r) = is_red l ≡ true

-- A subtree that a removal may go down into.
abbrev pub IsReady : ℕ → Tree → Type 0
IsReady n t = IsBalanced n t × IsLeaning t × HasRed t

pub Kept-red : (n : ℕ) (was_red : Bool) (o : Option Tree) → Kept n was_red o → Kept n true o
Kept-red n was_red none h = h
Kept-red n was_red (some t) h = (h.0, h.1, λ e. absurd (false≢true (sym e)))

-- What a removal below does, whatever its result is.
pub finish_left :
    (n : ℕ) (was_red : Bool) (ks below : List ℕ) (m : ℕ) (w : Bool) (c : Color) (k : ℕ) (r : Tree)
    (o : Option Tree)
    → Removed m w below o
    → ((l : Tree)
        → IsBalanced m l
        → IsLeaning l
        → (w ≡ false → is_red l ≡ false)
        → Kept n was_red (fix_up (node c l k r)))
    → below ++ (k ∷ keys r) ≡ ks
    → Removed n was_red ks (and_then (with_left c k r o) fix_up)
unfolding with_left
finish_left n was_red ks below m w c k r none rem fixed e = absurd rem.0
finish_left n was_red ks below m w c k r (some l) rem fixed e =
    with_keys n was_red ks (node c l k r) (ap (λ ls. ls ++ (k ∷ keys r)) rem.1 ∙ e)
      (fixed l rem.0.0 rem.0.1 rem.0.2)

-- The keys of a node without a key that is less than the node's own.
remove_left :
    (t k : ℕ) (l r : Tree)
    → t < k
    → IsAscending (keys l ++ (k ∷ keys r))
    → remove_key t (keys l) ++ (k ∷ keys r) ≡ remove_key t (keys l ++ (k ∷ keys r))
remove_left t k l r lt s =
    let (asc_l, less, more, asc_r) = IsAscending-split (keys l) k (keys r) s in
    sym (remove_key-left t k (keys l) (keys r) lt more)

module _ (step : Tree → Option Tree) (t : ℕ) (Good : List ℕ → Type 0) where
  -- What the removal does to a smaller subtree.
  abbrev pub Below : ℕ → Type 0
  Below bound =
      (m : ℕ) (l : Tree)
      → size l < bound
      → IsReady m l
      → IsAscending (keys l)
      → Good (keys l)
      → Removed m (is_red l) (remove_key t (keys l)) (step l)

  abbrev pub descend : Tree → Option Tree
  descend n = and_then (prepare_left n) λ n₁. and_then (on_left step n₁) fix_up

  -- Nothing is moved.
  stay :
      (m : ℕ) (c : Color) (l : Tree) (k : ℕ) (r : Tree)
      → t < k
      → IsAscending (keys l ++ (k ∷ keys r))
      → Good (keys l)
      → Below (size (node c l k r))
      → IsReady m l
      → IsBalanced m r
      → IsLeaning r
      → is_red r ≡ false
      → (c ≡ red → is_red l ≡ false)
      → Removed
          (above c m)
          (color_is_red c)
          (remove_key t (keys l ++ (k ∷ keys r)))
          (and_then (with_left c k r (step l)) fix_up)
  stay m c l k r lt s good rec ready br hr off left_off =
      let (asc_l, less, more, asc_r) = IsAscending-split (keys l) k (keys r) s in
      finish_left (above c m) (color_is_red c) (remove_key t (keys l ++ (k ∷ keys r)))
        (remove_key t (keys l)) m (is_red l) c k r (step l) (rec m l (omega arith) ready asc_l good)
        (λ l₁ b h keep. fix_settled c m l₁ k r b br h hr (λ e. keep (left_off e)) off)
        (remove_left t k l r lt s)

  -- Both red links hang below a black node.
  push :
      (m : ℕ) (ll : Tree) (kl : ℕ) (lr : Tree) (k : ℕ) (rl : Tree) (kr : ℕ) (rr : Tree)
      → t < k
      → IsAscending (keys (node red ll kl lr) ++ (k ∷ keys (node red rl kr rr)))
      → Good (keys (node red ll kl lr))
      → Below (size (node red (node red ll kl lr) k (node red rl kr rr)))
      → IsBalanced m (node red ll kl lr)
      → IsBalanced m (node red rl kr rr)
      → IsLeaning (node red ll kl lr)
      → IsLeaning (node red rl kr rr)
      → Removed
          (suc m)
          true
          (remove_key t (keys (node red ll kl lr) ++ (k ∷ keys (node red rl kr rr))))
          (and_then (with_left black k (node red rl kr rr) (step (node red ll kl lr))) fix_up)
  push m ll kl lr k rl kr rr lt s good rec bl br hl hr =
      let l = node red ll kl lr in
      let r = node red rl kr rr in
      let (asc_l, less, more, asc_r) = IsAscending-split (keys l) k (keys r) s in
      finish_left (suc m) true (remove_key t (keys l ++ (k ∷ keys r))) (remove_key t (keys l)) m
        true black k r (step l) (rec m l (omega arith) (bl, hl, tt) asc_l good)
        (λ l₁ b h keep.
          Kept-red (suc m) (is_red l₁) (fix_up (node black l₁ k r)) (fix_black m l₁ k r b br h hr))
        (remove_left t k l r lt s)

  -- A red node with two black children, its left one without a red child: a red link is moved.
  move :
      (m : ℕ) (ll : Tree) (kl : ℕ) (lr : Tree) (k : ℕ) (r : Tree)
      → t < k
      → IsAscending (keys (node black ll kl lr) ++ (k ∷ keys r))
      → Good (keys (node black ll kl lr))
      → ((ks : List ℕ) → Good (keys (node black ll kl lr) ++ (k ∷ ks)))
      → Below (size (node red (node black ll kl lr) k r))
      → IsBalanced (suc m) (node black ll kl lr)
      → IsBalanced (suc m) r
      → IsLeaning (node black ll kl lr)
      → IsLeaning r
      → is_red ll ≡ false
      → is_red r ≡ false
      → Removed
          (suc m)
          true
          (remove_key t (keys (node black ll kl lr) ++ (k ∷ keys r)))
          (descend (node red (node black ll kl lr) k r))
  unfolding prepare_left move_red_left on_left on_right
  move m ll kl lr k leaf lt s good more rec bl br hl hr offl offr = absurd (omega (arith, br))
  move m ll kl lr k (node red rl kr rr) lt s good more rec bl br hl hr offl offr =
      absurd (false≢true (sym offr))
  move m ll kl lr k (node black leaf kr rr) lt s good more rec bl br hl hr offl offr = rw offl (
      push m ll kl lr k leaf kr rr lt s good rec bl br (offl, hl.0, hl.1, hl.2)
        (refl, hr.0, hr.1, hr.2))
  move m ll kl lr k (node black (node black a x b) kr rr) lt s good more rec bl br hl hr offl offr =
      rw offl (
        push m ll kl lr k (node black a x b) kr rr lt s good rec bl br (offl, hl.0, hl.1, hl.2)
          (refl, hr.0, hr.1, hr.2))
  move m ll kl lr k (node black (node red a x b) kr rr) lt s good more rec bl br hl hr offl offr =
      rw offl (
        subst (λ ks. Removed (suc m) true (remove_key t ks) moved) (sym order)
          (stay (suc m) red l₁ x r₁ (lt_trans lt) asc (more (keys a))
            (λ m₁ l₂ small. rec m₁ l₂ (omega arith))
            ((bl, br.0.0), (hr.1.0, (offl, hl.0, hl.1, hl.2), hr.1.2), refl) (br.0.1, br.1)
            (hr.0, hr.1.3, hr.2) refl (λ e. refl)))
    where
      l₁ : Tree
      l₁ = node black (node red ll kl lr) k a

      r₁ : Tree
      r₁ = node black b kr rr

      moved : Option Tree
      moved = and_then (with_left red x r₁ (step l₁)) fix_up

      order :
          keys (node black ll kl lr) ++ (k ∷ ((keys a ++ (x ∷ keys b)) ++ (kr ∷ keys rr)))
          ≡ keys l₁ ++ (x ∷ keys r₁)
      order =
          ap (λ ks. keys (node black ll kl lr) ++ (k ∷ ks))
            (append_assoc (keys a) (x ∷ keys b) (kr ∷ keys rr))
          ∙ sym (append_assoc (keys (node black ll kl lr)) (k ∷ keys a) (x ∷ keys r₁))

      asc : IsAscending (keys l₁ ++ (x ∷ keys r₁))
      asc = subst IsAscending order s

      lt_trans : t < k → t < x
      lt_trans lt =
          let (asc_l, less, more, asc_r) = IsAscending-split (keys l₁) x (keys r₁) asc in
          let k_x = lt_of_AllBelow x (keys (node black ll kl lr)) k (keys a) less in omega arith

  -- The descent into the left subtree of a node that is red or has a red left child.
  pub descend_left :
      (n : ℕ) (c : Color) (cl : Color) (ll : Tree) (kl : ℕ) (lr : Tree) (k : ℕ) (r : Tree)
      → t < k
      → IsAscending (keys (node cl ll kl lr) ++ (k ∷ keys r))
      → Good (keys (node cl ll kl lr))
      → ((ks : List ℕ) → Good (keys (node cl ll kl lr) ++ (k ∷ ks)))
      → Below (size (node c (node cl ll kl lr) k r))
      → IsReady n (node c (node cl ll kl lr) k r)
      → Removed n
          (color_is_red c)
          (remove_key t (keys (node cl ll kl lr) ++ (k ∷ keys r)))
          (descend (node c (node cl ll kl lr) k r))
  unfolding prepare_left on_left
  descend_left n red red ll kl lr k r lt s good more rec (b, h, red_) =
      absurd (false≢true (sym h.0))
  descend_left zero black red ll kl lr k r lt s good more rec (b, h, red_) = absurd b
  descend_left (suc m) black red ll kl lr k r lt s good more rec (b, h, red_) =
      stay m black (node red ll kl lr) k r lt s good rec (b.0, h.1, tt) b.1 h.2 h.0
        (λ e. absurd (black≢red e))
  descend_left n red black (node red a x b) kl lr k r lt s good more rec (bal, h, red_) =
      stay n red (node black (node red a x b) kl lr) k r lt s good rec (bal.0, h.2, refl) bal.1 h.3
        h.1 (λ e. refl)
  descend_left zero black black ll kl lr k r lt s good more rec (b, h, red_) = absurd b
  descend_left (suc m) black black (node red a x b) kl lr k r lt s good more rec (bal, h, red_) =
      absurd (false≢true red_)
  descend_left (suc m) black black (node black a x b) kl lr k r lt s good more rec (bal, h, red_) =
      absurd (false≢true red_)
  descend_left (suc m) black black leaf kl lr k r lt s good more rec (bal, h, red_) =
      absurd (false≢true red_)
  descend_left zero red black leaf kl lr k r lt s good more rec (bal, h, red_) = absurd bal.0
  descend_left zero red black (node black a x b) kl lr k r lt s good more rec (bal, h, red_) =
      absurd bal.0
  descend_left (suc m) red black leaf kl lr k r lt s good more rec (bal, h, red_) =
      move m leaf kl lr k r lt s good more rec bal.0 bal.1 h.2 h.3 refl h.1
  descend_left (suc m) red black (node black a x b) kl lr k r lt s good more rec (bal, h, red_) =
      move m (node black a x b) kl lr k r lt s good more rec bal.0 bal.1 h.2 h.3 refl h.1
