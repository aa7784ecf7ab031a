-- ===== src/Structures/RbTree/Remove/Least.antt =====
-- `RBNode::remove_min` takes the least key out of a subtree.
use snu_projects.Base.{
  ℕ, zero, suc, ◌<◌, ◌≡◌, refl, sym, ap, ◌∙◌, List, [], ◌∷◌, ◌++◌, Option, none, some, arith,
}
use mathlib.Core.Bool.{false≢true}
use mathlib.Core.List.{append_assoc}
use snu_projects.Structures.Keys.{
  remove_key, remove_key-here, AllBelow, IsAscending, IsAscending-split,
}
use snu_projects.Structures.RbTree.{Color, red, black, Tree, leaf, node, is_red, leftmost_key}
use snu_projects.Structures.RbTree.Keys.{keys}
use snu_projects.Structures.RbTree.Invariant.{color_is_red}
use snu_projects.Structures.RbTree.Remove.{size, remove_min}
use snu_projects.Structures.RbTree.Remove.Steps.{Removed}
use snu_projects.Structures.RbTree.Remove.Descend.{IsReady, descend_left}

abbrev pub first : List ℕ → Option ℕ
first [] = none
first (x ∷ xs) = some x

first-append : (xs ys : List ℕ) (m : ℕ) → first xs ≡ some m → first (xs ++ ys) ≡ some m
first-append [] ys m e = ground arith
first-append (x ∷ xs) ys m e = e

-- The keys of a node are not empty.
first-keys :
    (c : Color) (l : Tree) (k : ℕ) (r : Tree) (ys : List ℕ)
    → first (keys (node c l k r) ++ ys) ≡ first (keys (node c l k r))
first-keys c leaf k r ys = refl
first-keys c (node cl ll kl lr) k r ys =
    ap first (append_assoc (keys (node cl ll kl lr)) (k ∷ keys r) ys)
    ∙ first-keys cl ll kl lr ((k ∷ keys r) ++ ys)
    ∙ sym (first-keys cl ll kl lr (k ∷ keys r))

pub first-leftmost_key : (t : Tree) → leftmost_key t ≡ first (keys t)
unfolding leftmost_key
first-leftmost_key leaf = refl
first-leftmost_key (node c leaf k r) = refl
first-leftmost_key (node c (node cl ll kl lr) k r) =
    first-leftmost_key (node cl ll kl lr) ∙ sym (first-keys cl ll kl lr (k ∷ keys r))

pub first_node :
    (c : Color) (l : Tree) (k : ℕ) (r : Tree) → (m : ℕ) × (first (keys (node c l k r)) ≡ some m)
first_node c leaf k r = (k, refl)
first_node c (node cl ll kl lr) k r =
    let (m, e) = first_node cl ll kl lr in (m, first-keys cl ll kl lr (k ∷ keys r) ∙ e)

-- The first key, taken out and put back in front.
pub first_again : (xs : List ℕ) (m : ℕ) → first xs ≡ some m → m ∷ remove_key m xs ≡ xs
unfolding remove_key
first_again [] m e = ground arith
first_again (x ∷ xs) m e = ground arith

lt_of_first : (b m : ℕ) (xs : List ℕ) → AllBelow b xs → first xs ≡ some m → m < b
lt_of_first b m [] h e = ground arith
lt_of_first b m (x ∷ xs) h e = ground arith

go_left :
    (c cl : Color) (ll : Tree) (kl : ℕ) (lr : Tree) (k : ℕ) (r : Tree) (fuel n m : ℕ)
    → size (node c (node cl ll kl lr) k r) < suc (suc fuel)
    → IsReady n (node c (node cl ll kl lr) k r)
    → IsAscending (keys (node c (node cl ll kl lr) k r))
    → first (keys (node c (node cl ll kl lr) k r)) ≡ some m
    → ((n : ℕ) (t : Tree) (m : ℕ)
        → size t < suc fuel
        → IsReady n t
        → IsAscending (keys t)
        → first (keys t) ≡ some m
        → Removed n (is_red t) (remove_key m (keys t)) (remove_min fuel t))
    → Removed n
        (color_is_red c)
        (remove_key m (keys (node c (node cl ll kl lr) k r)))
        (remove_min (suc fuel) (node c (node cl ll kl lr) k r))
unfolding remove_min
go_left c cl ll kl lr k r fuel n m enough ready s e rec =
    let l = node cl ll kl lr in
    let (asc_l, less, more, asc_r) = IsAscending-split (keys l) k (keys r) s in
    let least = sym (first-keys cl ll kl lr (k ∷ keys r)) ∙ e in
    descend_left (remove_min fuel) m (λ ks. first ks ≡ some m) n c cl ll kl lr k r
      (lt_of_first k m (keys l) less least) s least (λ ks. first-append (keys l) (k ∷ ks) m least)
      (λ n₁ l₁ small ready₁ asc₁ first₁. rec n₁ l₁ m (omega arith) ready₁ asc₁ first₁) ready

-- `remove_min` succeeds on a subtree that is red or has a red left child.
pub remove_min-Removed :
    (fuel n : ℕ) (t : Tree) (m : ℕ)
    → size t < suc fuel
    → IsReady n t
    → IsAscending (keys t)
    → first (keys t) ≡ some m
    → Removed n (is_red t) (remove_key m (keys t)) (remove_min fuel t)
unfolding remove_min
remove_min-Removed zero n (node c l k r) m enough ready s e = absurd (omega arith)
remove_min-Removed zero n leaf m enough ready s e = absurd ready.2
remove_min-Removed (suc fuel) n leaf m enough ready s e = absurd ready.2
remove_min-Removed (suc fuel) n (node black leaf k r) m enough ready s e =
    absurd (false≢true ready.2)
remove_min-Removed (suc fuel) n (node red leaf k leaf) m enough ready s e =
    ((ready.0.0, tt, λ e₁. refl), only e)
  where
    only : first (k ∷ []) ≡ some m → [] ≡ remove_key m (k ∷ [])
    only e = ground (arith, remove_key-here m [] [], e)
remove_min-Removed (suc fuel) n (node red leaf k (node red a x b)) m enough ready s e =
    absurd (false≢true (sym ready.1.1))
remove_min-Removed (suc fuel) zero (node red leaf k (node black a x b)) m enough ready s e =
    absurd ready.0.1
remove_min-Removed (suc fuel) (suc n) (node red leaf k (node black a x b)) m enough ready s e =
    absurd (omega (arith, ready.0.0))
remove_min-Removed (suc fuel) n (node red (node cl ll kl lr) k r) m enough ready s e =
    go_left red cl ll kl lr k r fuel n m enough ready s e (remove_min-Removed fuel)
remove_min-Removed (suc fuel) n (node black (node cl ll kl lr) k r) m enough ready s e =
    go_left black cl ll kl lr k r fuel n m enough ready s e (remove_min-Removed fuel)
