-- ===== src/Structures/RbTree/Remove/Right.antt =====
-- One level of a removal from the right subtree, where a red link is first moved to the right.
use snu_projects.Base.{
  ℕ, suc, ◌<◌, ◌≤◌, ◌≡◌, sym, ap, subst, ◌∙◌, Bool, true, false, List, ◌∷◌, ◌++◌, Option, none,
  some, arith, ◌==◌, ◌⊎◌, inl, inr, Bool-cases, eq_of_==, ne_of_==, ==_of_ne,
}
use snu_projects.Structures.Keys.{
  remove_key, has_key, IsAscending, IsAscending-split, remove_key-right, remove_key-here,
  has_key-right,
}
use snu_projects.Structures.RbTree.{
  Color, red, black, Tree, leaf, node, is_red, and_then, with_right, fix_up,
}
use snu_projects.Structures.RbTree.Keys.{keys}
use snu_projects.Structures.RbTree.Invariant.{IsBalanced, IsLeaning}
use snu_projects.Structures.RbTree.Remove.{size, take_right, remove_min, remove_node}
use snu_projects.Structures.RbTree.Remove.Steps.{Kept, Removed, with_keys}
use snu_projects.Structures.RbTree.Remove.Descend.{IsReady}
use snu_projects.Structures.RbTree.Remove.Least.{
  first_node, first_again, first-leftmost_key, remove_min-Removed,
}

-- A black node with a red right child, whose key is not above the one that is removed: what the
-- removal leaves on its way when it has moved two red links to the right.
abbrev pub IsTilted : ℕ → ℕ → Tree → Type 0
IsTilted key n leaf = ⊥
IsTilted key n (node red l k r) = ⊥
IsTilted key n (node black l k r) =
    IsBalanced n (node black l k r)
    × (k ≤ key)
    × (is_red l ≡ false)
    × (is_red r ≡ true)
    × IsLeaning l
    × IsLeaning r

finish_right :
    (n : ℕ) (was_red : Bool) (ks below : List ℕ) (m : ℕ) (w : Bool) (c : Color) (l : Tree) (k : ℕ)
    (o : Option Tree)
    → Removed m w below o
    → ((r : Tree)
        → IsBalanced m r
        → IsLeaning r
        → (w ≡ false → is_red r ≡ false)
        → Kept n was_red (fix_up (node c l k r)))
    → keys l ++ (k ∷ below) ≡ ks
    → Removed n was_red ks (and_then (with_right c l k o) fix_up)
unfolding with_right
finish_right n was_red ks below m w c l k none rem fixed e = absurd rem.0
finish_right n was_red ks below m w c l k (some r) rem fixed e =
    with_keys n was_red ks (node c l k r) (ap (λ rs. keys l ++ (k ∷ rs)) rem.1 ∙ e)
      (fixed r rem.0.0 rem.0.1 rem.0.2)

-- What `RBNode::remove` does with less fuel.
abbrev pub Below : ℕ → ℕ → Type 0
Below fuel key =
    (n : ℕ) (t : Tree)
    → size t < suc fuel
    → IsReady n t ⊎ IsTilted key n t
    → IsAscending (keys t)
    → has_key key (keys t) ≡ true
    → Removed n (is_red t) (remove_key key (keys t)) (remove_node fuel t key)

-- What is needed of the way on from a node.
abbrev pub Fixed : ℕ → Bool → Color → Tree → ℕ → Bool → Type 0
Fixed n was_red c l m w =
    (k : ℕ) (r : Tree)
    → IsBalanced m r
    → IsLeaning r
    → (w ≡ false → is_red r ≡ false)
    → Kept n was_red (fix_up (node c l k r))

abbrev pub take : ℕ → ℕ → Tree → Option Tree
take fuel key n = and_then (take_right (λ r₁. remove_node fuel r₁ key) fuel key n) fix_up

module _ (fuel key : ℕ) (rec : Below fuel key) where
  -- The key is in the right subtree.
  pub take_more :
      (n : ℕ) (was_red : Bool) (c : Color) (l : Tree) (k : ℕ) (r : Tree) (m : ℕ)
      → IsAscending (keys l ++ (k ∷ keys r))
      → k < key
      → has_key key (keys l ++ (k ∷ keys r)) ≡ true
      → size r < suc fuel
      → IsReady m r ⊎ IsTilted key m r
      → Fixed n was_red c l m (is_red r)
      → Removed n was_red (remove_key key (keys l ++ (k ∷ keys r))) (take fuel key (node c l k r))
  unfolding take_right
  take_more n was_red c l k r m s lt has small ready fixed =
      let (asc_l, less, more, asc_r) = IsAscending-split (keys l) k (keys r) s in
      rw (==_of_ne key k (omega arith), take_right)
        (finish_right n was_red (remove_key key (keys l ++ (k ∷ keys r))) (remove_key key (keys r))
          m (is_red r) c l k (remove_node fuel r key)
          (rec m r small ready asc_r (sym (has_key-right key k (keys l) (keys r) lt less) ∙ has))
          (fixed k) (sym (remove_key-right key k (keys l) (keys r) lt less)))

  -- The key is the node's own: the least key of the right subtree takes its place.
  take_same :
      (n : ℕ) (was_red : Bool) (c : Color) (l : Tree) (r : Tree) (m : ℕ)
      → IsAscending (keys l ++ (key ∷ keys r))
      → size r < suc fuel
      → IsReady m r
      → Fixed n was_red c l m (is_red r)
      → Removed n was_red
          (remove_key key (keys l ++ (key ∷ keys r)))
          (take fuel key (node c l key r))
  unfolding take_right
  take_same n was_red c l leaf m s small ready fixed = absurd ready.2
  take_same n was_red c l (node cr rl kr rr) m s small ready fixed =
      let r = node cr rl kr rr in
      let (asc_l, less, more, asc_r) = IsAscending-split (keys l) key (keys r) s in
      let (least, e) = first_node cr rl kr rr in
      rw (same key, take_right)
        (rw (first-leftmost_key r ∙ e) (
          finish_right n was_red (remove_key key (keys l ++ (key ∷ keys r)))
            (remove_key least (keys r)) m (is_red r) c l least (remove_min fuel r)
            (remove_min-Removed fuel m r least small ready asc_r e) (fixed least)
            (ap (λ ks. keys l ++ ks) (first_again (keys r) least e)
              ∙ sym (remove_key-here key (keys l) (keys r) less))))
    where
      same : (a : ℕ) → (a == a) ≡ true
      same a = ground arith

  pub take_node :
      (n : ℕ) (was_red : Bool) (c : Color) (l : Tree) (k : ℕ) (r : Tree) (m : ℕ)
      → IsAscending (keys l ++ (k ∷ keys r))
      → k ≤ key
      → has_key key (keys l ++ (k ∷ keys r)) ≡ true
      → size r < suc fuel
      → IsReady m r
      → Fixed n was_red c l m (is_red r)
      → Removed n was_red (remove_key key (keys l ++ (k ∷ keys r))) (take fuel key (node c l k r))
  take_node n was_red c l k r m s le has small ready fixed = elim (Bool-cases (key == k)) [
    | inl e ↦
        subst
          (λ j.
            IsAscending (keys l ++ (j ∷ keys r))
            → Removed n was_red (remove_key key (keys l ++ (j ∷ keys r)))
                (take fuel key (node c l j r)))
          (eq_of_== key k e) (λ s₁. take_same n was_red c l r m s₁ small ready fixed) s
    | inr e ↦
        let ne = ne_of_== key k e in
        take_more n was_red c l k r m s (omega arith) has small (inl ready) fixed
  ]
