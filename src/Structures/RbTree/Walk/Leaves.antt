-- ===== src/Structures/RbTree/Walk/Leaves.antt =====
-- The paths to the leaves of a red-black tree pass equally many black nodes.
use snu_projects.Base.{ℕ, zero, suc, ◌+◌, ◌≡◌, List, [], ◌∷◌, arith}
use snu_projects.Structures.RbTree.{Color, red, black, Tree, leaf, node}
use snu_projects.Structures.RbTree.Invariant.{IsBalanced}
use snu_projects.Structures.RbTree.Walk.{
  SearchPath, start, count_black, down_left, down_right, insert_path, collect_leaves,
  collect_all_leaves,
}

-- Every path that was found counts `n` black nodes.
abbrev pub AllCount : ℕ → List (SearchPath × Tree) → Type 0
AllCount n [] = Unit {0}
AllCount n (e ∷ es) = (e.0.num_black ≡ n) × AllCount n es

-- The black nodes below the root `t` of a subtree on a path, where there are `n` with it.
below_root :
    (n total counted : ℕ) (c : Color) (l : Tree) (k : ℕ) (r : Tree)
    → IsBalanced n (node c l k r)
    → counted + n ≡ total
    → (m : ℕ) × IsBalanced m l × IsBalanced m r × (count_black c counted + m ≡ total)
below_root n total counted red l k r b e = (n, b.0, b.1, e)
below_root zero total counted black l k r b e = absurd b
below_root (suc n) total counted black l k r b e = (n, b.0, b.1, omega arith)

AllCount-insert :
    (n : ℕ) (q : SearchPath) (t : Tree) (es : List (SearchPath × Tree))
    → q.num_black ≡ n
    → AllCount n es
    → AllCount n (insert_path q t es)
AllCount-insert n q t es e h = ground arith

-- The subtrees of a node have `m` black nodes on every way down.
abbrev IsBalancedBelow : ℕ → Tree → Type 0
IsBalancedBelow m leaf = Unit {0}
IsBalancedBelow m (node c l k r) = IsBalanced m l × IsBalanced m r

collect_leaves-AllCount :
    (t : Tree) (m total : ℕ) (ls : List (SearchPath × Tree)) (q : SearchPath)
    → IsBalancedBelow m t
    → q.num_black + m ≡ total
    → AllCount total ls
    → AllCount total (collect_leaves t ls q)
unfolding collect_leaves
collect_leaves-AllCount leaf m total ls q b e h = h
collect_leaves-AllCount (node c leaf k leaf) m total ls q b e h =
    AllCount-insert total q (node c leaf k leaf) ls (omega (arith, b.0)) h
collect_leaves-AllCount (node c leaf k (node cr rl kr rr)) m total ls q b e h =
    let (n, b₁, b₂, e₁) = below_root m total q.num_black cr rl kr rr b.1 e in
    collect_leaves-AllCount (node cr rl kr rr) n total ls (down_right q cr) (b₁, b₂) e₁ h
collect_leaves-AllCount (node c (node cl ll kl lr) k leaf) m total ls q b e h =
    let (n, b₁, b₂, e₁) = below_root m total q.num_black cl ll kl lr b.0 e in
    collect_leaves-AllCount (node cl ll kl lr) n total ls (down_left q cl) (b₁, b₂) e₁ h
collect_leaves-AllCount (node c (node cl ll kl lr) k (node cr rl kr rr)) m total ls q b e h =
    let (n, a₁, a₂, e₁) = below_root m total q.num_black cl ll kl lr b.0 e in
    let (o, b₁, b₂, e₂) = below_root m total q.num_black cr rl kr rr b.1 e in
    collect_leaves-AllCount (node cr rl kr rr) o total
      (collect_leaves (node cl ll kl lr) ls (down_left q cl)) (down_right q cr) (b₁, b₂) e₂
      (collect_leaves-AllCount (node cl ll kl lr) n total ls (down_left q cl) (a₁, a₂) e₁ h)

-- In a tree with `m` black nodes on every way down below its root, every path of
-- `collect_all_leaves` counts `m` black nodes.
pub collect_all_leaves-AllCount :
    (c : Color) (m : ℕ) (l : Tree) (k : ℕ) (r : Tree)
    → IsBalanced m l
    → IsBalanced m r
    → AllCount m (collect_all_leaves (node c l k r))
collect_all_leaves-AllCount c m l k r bl br =
    collect_leaves-AllCount (node c l k r) m m [] start (bl, br) (omega arith) tt
