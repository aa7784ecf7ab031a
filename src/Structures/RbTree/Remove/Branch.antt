-- ===== src/Structures/RbTree/Remove/Branch.antt =====
-- The second branch of `RBNode::remove`, for a key that is not below the key of the node.
use snu_projects.Base.{
  ℕ, zero, suc, ◌<◌, ◌≤◌, ◌≡◌, refl, sym, subst, ◌∙◌, Bool, true, false, ◌&&◌, List, [], ◌∷◌,
  Option, some, arith, ◌==◌, inl, inr, Bool-cases,
}
use mathlib.Core.Bool.{false≢true}
use mathlib.Core.List.{append_assoc}
use snu_projects.Structures.Keys.{
  remove_key, has_key, IsAscending, IsAscending-split, remove_key-here, lt_of_AllBelow,
}
use snu_projects.Structures.RbTree.{
  Color, red, black, Tree, leaf, node, is_red, right_of, and_then, fix_up,
}
use snu_projects.Structures.RbTree.Keys.{keys}
use snu_projects.Structures.RbTree.Invariant.{IsBalanced, IsLeaning, color_is_red}
use snu_projects.Structures.RbTree.Remove.{
  size, is_null, key_of, prepare_right, move_red_right, pull_right,
}
use snu_projects.Structures.RbTree.Remove.Steps.{Kept, Removed, fix_settled, fix_black}
use snu_projects.Structures.RbTree.Remove.Descend.{IsReady, Kept-red}
use snu_projects.Structures.RbTree.Remove.Right.{IsTilted, Below, take, take_more, take_node}

-- The second branch of `RBNode::remove`, after the rotation and from its start.
abbrev pub onward : ℕ → ℕ → Tree → Option Tree
onward fuel key n = elim ((key == key_of n) && is_null (right_of n)) [
  | true ↦ some leaf
  | false ↦ and_then (prepare_right n) (take fuel key)
]

abbrev pub down_right : ℕ → ℕ → Tree → Option Tree
down_right fuel key n = and_then (pull_right n) (onward fuel key)

-- The key of a node without children.
alone :
    (fuel key n k : ℕ)
    → n ≡ 0
    → has_key key (k ∷ []) ≡ true
    → Removed n true (remove_key key (k ∷ [])) (down_right fuel key (node red leaf k leaf))
alone fuel key n k e has = elim (Bool-cases (key == k)) [
  | inl same ↦ rw (same, down_right, onward) ((e, tt, λ e₁. refl), gone same)
  | inr other ↦ absurd (false≢true (sym (rw (other, has_key) refl) ∙ has))
]
  where
    gone : (key == k) ≡ true → [] ≡ remove_key key (k ∷ [])
    gone same = ground (arith, remove_key-here key [] [])

module _ (fuel key : ℕ) (n : ℕ) (was_red : Bool) (ks : List ℕ) (c : Color) (l : Tree) (k : ℕ)
    (cr : Color) (rl : Tree) (kr : ℕ) (rr : Tree) where
  -- With a right child the node is not the one that is taken out.
  past_test :
      Removed n was_red ks
        (and_then (prepare_right (node c l k (node cr rl kr rr))) (take fuel key))
      → Removed n was_red ks (onward fuel key (node c l k (node cr rl kr rr)))
  past_test h = go (key == k)
    where
      go :
          (b : Bool)
          → Removed n was_red ks (elim (b && false) as (λ x. Option Tree) [
            | true ↦ some leaf
            | false ↦ and_then (prepare_right (node c l k (node cr rl kr rr))) (take fuel key)
          ])
      go true = h
      go false = h

module _ (fuel key : ℕ) (rec : Below fuel key) where
  -- A node with a red left child, which is rotated to the right.
  rotated :
      (m : ℕ) (ll : Tree) (kl : ℕ) (lr : Tree) (k : ℕ) (r : Tree)
      → size (node black (node red ll kl lr) k r) < suc (suc fuel)
      → IsReady (suc m) (node black (node red ll kl lr) k r)
      → IsAscending (keys (node black (node red ll kl lr) k r))
      → has_key key (keys (node black (node red ll kl lr) k r)) ≡ true
      → k ≤ key
      → Removed
          (suc m)
          false
          (remove_key key (keys (node black (node red ll kl lr) k r)))
          (down_right fuel key (node black (node red ll kl lr) k r))
  unfolding prepare_right
  rotated m ll kl lr k r small (b, h, on) s has le =
      past_test fuel key (suc m) false (remove_key key (keys (node black (node red ll kl lr) k r)))
        black ll kl red lr k r
        (subst (λ ks. Removed (suc m) false (remove_key key ks) (take fuel key turned)) (sym order)
          (take_more fuel key rec (suc m) false black ll kl (node red lr k r) m
            (subst IsAscending order s) kl_key (subst (λ ks. has_key key ks ≡ true) order has)
            (omega arith) (inl ((b.0.1, b.1), (h.1.1, h.0, h.1.3, h.2), tt))
            (λ k₁ r₁ br hr keep.
              subst (λ w. Kept (suc m) w (fix_up (node black ll k₁ r₁))) h.1.0
                (fix_black m ll k₁ r₁ b.0.0 br h.1.2 hr))))
    where
      turned : Tree
      turned = node black ll kl (node red lr k r)

      order : keys (node black (node red ll kl lr) k r) ≡ keys turned
      order = append_assoc (keys ll) (kl ∷ keys lr) (k ∷ keys r)

      kl_key : kl < key
      kl_key =
          let (asc_l, less, more, asc_r) =
            IsAscending-split (keys (node red ll kl lr)) k (keys r) s in
          let below = lt_of_AllBelow k (keys ll) kl (keys lr) less in omega arith

  pub tilted :
      (m : ℕ) (l : Tree) (k : ℕ) (r : Tree)
      → size (node black l k r) < suc (suc fuel)
      → IsTilted key (suc m) (node black l k r)
      → IsAscending (keys (node black l k r))
      → has_key key (keys (node black l k r)) ≡ true
      → Removed
          (suc m)
          false
          (remove_key key (keys (node black l k r)))
          (down_right fuel key (node black l k r))
  unfolding prepare_right
  tilted m l k leaf small (b, le, off, on, hl, hr) s has = absurd (false≢true on)
  tilted m l k (node black rl kr rr) small (b, le, off, on, hl, hr) s has = absurd (false≢true on)
  tilted m l k (node red rl kr rr) small (b, le, off, on, hl, hr) s has =
      rw (off, down_right)
        (past_test fuel key (suc m) false
          (remove_key key (keys (node black l k (node red rl kr rr)))) black l k red rl kr rr
          (take_node fuel key rec (suc m) false black l k (node red rl kr rr) m s le has
            (omega arith) (b.1, hr, tt)
            (λ k₁ r₁ br hr₁ keep.
              subst (λ w. Kept (suc m) w (fix_up (node black l k₁ r₁))) off
                (fix_black m l k₁ r₁ b.0 br hl hr₁))))

  -- A red node with two black children, the right one with a red left child: nothing is moved.
  straight :
      (m : ℕ) (l : Tree) (k : ℕ) (a : Tree) (x : ℕ) (b : Tree) (kr : ℕ) (rr : Tree)
      → size (node red l k (node black (node red a x b) kr rr)) < suc (suc fuel)
      → IsReady m (node red l k (node black (node red a x b) kr rr))
      → IsAscending (keys (node red l k (node black (node red a x b) kr rr)))
      → has_key key (keys (node red l k (node black (node red a x b) kr rr))) ≡ true
      → k ≤ key
      → Removed m true
          (remove_key key (keys (node red l k (node black (node red a x b) kr rr))))
          (down_right fuel key (node red l k (node black (node red a x b) kr rr)))
  unfolding prepare_right
  straight m l k a x b kr rr small (bal, h, on) s has le =
      let r = node black (node red a x b) kr rr in
      rw (h.0, down_right)
        (past_test fuel key m true (remove_key key (keys (node red l k r))) red l k black
          (node red a x b) kr rr
          (take_node fuel key rec m true red l k r m s le has (omega arith) (bal.1, h.3, refl)
            (λ k₁ r₁ br hr keep. fix_settled red m l k₁ r₁ bal.0 br h.2 hr (λ e. h.0) (keep refl))))

  -- Both red links hang below a black node.
  spread :
      (m : ℕ) (ll : Tree) (kl : ℕ) (lr : Tree) (k : ℕ) (rl : Tree) (kr : ℕ) (rr : Tree)
      → IsAscending (keys (node black (node red ll kl lr) k (node red rl kr rr)))
      → has_key key (keys (node black (node red ll kl lr) k (node red rl kr rr))) ≡ true
      → k ≤ key
      → size (node red rl kr rr) < suc fuel
      → IsBalanced m (node red ll kl lr)
      → IsBalanced m (node red rl kr rr)
      → IsLeaning (node red ll kl lr)
      → IsLeaning (node red rl kr rr)
      → Removed
          (suc m)
          true
          (remove_key key (keys (node black (node red ll kl lr) k (node red rl kr rr))))
          (take fuel key (node black (node red ll kl lr) k (node red rl kr rr)))
  spread m ll kl lr k rl kr rr s has le small bl br hl hr =
      let l = node red ll kl lr in
      take_node fuel key rec (suc m) true black l k (node red rl kr rr) m s le has small
        (br, hr, tt)
        (λ k₁ r₁ br₁ hr₁ keep.
          Kept-red (suc m) true (fix_up (node black l k₁ r₁)) (fix_black m l k₁ r₁ bl br₁ hl hr₁))

  -- A red node with two black children, the right one without a red child: a red link is moved.
  moved :
      (m : ℕ) (ll : Tree) (kl : ℕ) (lr : Tree) (k : ℕ) (rl : Tree) (kr : ℕ) (rr : Tree)
      → size (node red (node black ll kl lr) k (node black rl kr rr)) < suc (suc fuel)
      → IsReady (suc m) (node red (node black ll kl lr) k (node black rl kr rr))
      → IsAscending (keys (node red (node black ll kl lr) k (node black rl kr rr)))
      → has_key key (keys (node red (node black ll kl lr) k (node black rl kr rr))) ≡ true
      → k ≤ key
      → is_red rl ≡ false
      → Removed
          (suc m)
          true
          (remove_key key (keys (node red (node black ll kl lr) k (node black rl kr rr))))
          (and_then
            (prepare_right (node red (node black ll kl lr) k (node black rl kr rr)))
            (take fuel key))
  unfolding prepare_right move_red_right
  moved m leaf kl lr k rl kr rr small (bal, h, on) s has le off = rw off (
      spread m leaf kl lr k rl kr rr s has le (omega arith) bal.0 bal.1 (refl, h.2.0, h.2.1, h.2.2)
        (off, h.3.0, h.3.1, h.3.2))
  moved m (node black a x b) kl lr k rl kr rr small (bal, h, on) s has le off = rw off (
      spread m (node black a x b) kl lr k rl kr rr s has le (omega arith) bal.0 bal.1
        (refl, h.2.0, h.2.1, h.2.2) (off, h.3.0, h.3.1, h.3.2))
  moved m (node red a x b) kl lr k rl kr rr small (bal, h, on) s has le off = rw off (
      subst (λ ks. Removed (suc m) true (remove_key key ks) (take fuel key turned)) (sym order)
        (take_more fuel key rec (suc m) true red (node black a x b) kl right (suc m)
          (subst IsAscending order s) kl_key (subst (λ ks. has_key key ks ≡ true) order has)
          (omega arith) (inr ((bal.0.1, bal.1), le, h.2.0, refl, h.2.2, (off, h.3.0, h.3.1, h.3.2)))
          (λ k₁ r₁ br hr keep.
            fix_settled red (suc m) (node black a x b) k₁ r₁ bal.0.0 br (h.2.1.1, h.2.1.2, h.2.1.3)
              hr (λ e. refl) (keep refl))))
    where
      right : Tree
      right = node black lr k (node red rl kr rr)

      turned : Tree
      turned = node red (node black a x b) kl right

      order :
          keys (node red (node black (node red a x b) kl lr) k (node black rl kr rr)) ≡ keys turned
      order = append_assoc (keys (node black a x b)) (kl ∷ keys lr) (k ∷ keys (node red rl kr rr))

      kl_key : kl < key
      kl_key =
          let (asc_l, less, more, asc_r) =
            IsAscending-split (keys (node black (node red a x b) kl lr)) k
              (keys (node black rl kr rr)) s in
          let below = lt_of_AllBelow k (keys (node red a x b)) kl (keys lr) less in omega arith

  pub down_right-Removed :
      (n : ℕ) (c : Color) (l : Tree) (k : ℕ) (r : Tree)
      → size (node c l k r) < suc (suc fuel)
      → IsReady n (node c l k r)
      → IsAscending (keys (node c l k r))
      → has_key key (keys (node c l k r)) ≡ true
      → k ≤ key
      → Removed n
          (color_is_red c)
          (remove_key key (keys (node c l k r)))
          (down_right fuel key (node c l k r))
  down_right-Removed n red (node red ll kl lr) k r small (b, h, on) s has le =
      absurd (false≢true (sym h.0))
  down_right-Removed n black leaf k r small (b, h, on) s has le = absurd (false≢true on)
  down_right-Removed n black (node black ll kl lr) k r small (b, h, on) s has le =
      absurd (false≢true on)
  down_right-Removed zero black (node red ll kl lr) k r small (b, h, on) s has le = absurd b
  down_right-Removed (suc m) black (node red ll kl lr) k r small ready s has le =
      rotated m ll kl lr k r small ready s has le
  down_right-Removed n red leaf k leaf small (b, h, on) s has le = alone fuel key n k b.0 has
  down_right-Removed n red l k (node red rl kr rr) small (b, h, on) s has le =
      absurd (false≢true (sym h.1))
  down_right-Removed zero red l k (node black rl kr rr) small (b, h, on) s has le = absurd b.1
  down_right-Removed (suc m) red leaf k (node black rl kr rr) small (b, h, on) s has le =
      absurd (omega (arith, b.0))
  down_right-Removed zero red (node black ll kl lr) k leaf small (b, h, on) s has le = absurd b.0
  down_right-Removed (suc m) red (node black ll kl lr) k leaf small (b, h, on) s has le =
      absurd (omega (arith, b.1))
  down_right-Removed (suc m) red (node black ll kl lr) k (node black (node red a x d) kr rr) small
        ready s has le =
      straight (suc m) (node black ll kl lr) k a x d kr rr small ready s has le
  down_right-Removed (suc m) red (node black ll kl lr) k (node black leaf kr rr) small ready s has
        le =
      past_test fuel key (suc m) true
        (remove_key key (keys (node red (node black ll kl lr) k (node black leaf kr rr)))) red
        (node black ll kl lr) k black leaf kr rr
        (moved m ll kl lr k leaf kr rr small ready s has le refl)
  down_right-Removed (suc m) red (node black ll kl lr) k (node black (node black a x d) kr rr) small
        ready s has le =
      past_test fuel key (suc m) true
        (remove_key key
          (keys (node red (node black ll kl lr) k (node black (node black a x d) kr rr))))
        red (node black ll kl lr) k black (node black a x d) kr rr
        (moved m ll kl lr k (node black a x d) kr rr small ready s has le refl)
