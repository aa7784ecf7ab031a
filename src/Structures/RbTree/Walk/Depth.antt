-- ===== src/Structures/RbTree/Walk/Depth.antt =====
-- How deep a left-leaning red-black tree is, and where its nodes stand in a level.
use snu_projects.Base.{
  ℕ, zero, suc, ◌+◌, ◌*◌, ◌^◌, ◌≤◌, ◌<◌, max, ◌≡◌, refl, sym, ap, subst, ◌∙◌, Bool, true, false,
  ◌&&◌, leb, List, [], ◌∷◌, arith,
}
use native.Mathlib.Nat.{mul_assoc}
use snu_projects.Structures.RbTree.{Color, red, black, Tree, leaf, node, is_red}
use snu_projects.Structures.RbTree.Invariant.{IsBalanced, IsLeaning}
use snu_projects.Structures.RbTree.Remove.{size}
use snu_projects.Structures.RbTree.Walk.{
  SearchPath, start, down_left, down_right, get_max_depth, insert_position, nodes_at_level,
  get_nodes_at_level,
}

get_max_depth-node :
    (c : Color) (l : Tree) (k : ℕ) (r : Tree)
    → get_max_depth (node c l k r) ≡ suc (max (get_max_depth l) (get_max_depth r))
unfolding get_max_depth
get_max_depth-node c leaf k leaf = refl
get_max_depth-node c (node cl ll kl lr) k (node cr rl kr rr) = omega arith
get_max_depth-node c (node cl ll kl lr) k leaf = omega arith
get_max_depth-node c leaf k (node cr rl kr rr) = omega arith

abbrev red_level : Tree → ℕ
red_level leaf = 0
red_level (node red l k r) = 1
red_level (node black l k r) = 0

red_level_of_black : (t : Tree) → is_red t ≡ false → red_level t ≡ 0
red_level_of_black leaf e = refl
red_level_of_black (node red l k r) e = ground arith
red_level_of_black (node black l k r) e = refl

red_level_at_most : (t : Tree) → red_level t ≤ 1
red_level_at_most leaf = omega arith
red_level_at_most (node red l k r) = omega arith
red_level_at_most (node black l k r) = omega arith

depth_at_most :
    (n : ℕ) (t : Tree) → IsBalanced n t → IsLeaning t → get_max_depth t ≤ 2 * n + red_level t
unfolding get_max_depth
depth_at_most n leaf b h = omega arith
depth_at_most n (node red l k r) b h = omega (
  arith,
  get_max_depth-node red l k r,
  depth_at_most n l b.0 h.2,
  depth_at_most n r b.1 h.3,
  red_level_of_black l h.0,
  red_level_of_black r h.1,
)
depth_at_most zero (node black l k r) b h = absurd b
depth_at_most (suc n) (node black l k r) b h = omega (
  arith,
  get_max_depth-node black l k r,
  depth_at_most n l b.0 h.1,
  depth_at_most n r b.1 h.2,
  red_level_at_most l,
  red_level_of_black r h.0,
)

pow_suc : (n : ℕ) → 2 ^ suc n ≡ 2 * 2 ^ n
pow_suc n = omega arith

size_at_least : (n : ℕ) (t : Tree) → IsBalanced n t → 2 ^ n ≤ suc (size t)
size_at_least n leaf b = rw b (omega arith)
size_at_least n (node red l k r) b = omega (arith, size_at_least n l b.0)
size_at_least zero (node black l k r) b = absurd b
size_at_least (suc n) (node black l k r) b =
    omega (arith, pow_suc n, size_at_least n l b.0, size_at_least n r b.1)

pow_le : (a b : ℕ) → a ≤ b → 2 ^ a ≤ 2 ^ b
pow_le zero zero le = omega arith
pow_le zero (suc b) le = omega (arith, pow_suc b, pow_le zero b (omega arith))
pow_le (suc a) zero le = absurd (omega arith)
pow_le (suc a) (suc b) le = omega (arith, pow_suc a, pow_suc b, pow_le a b (omega arith))

square_le : (x y : ℕ) → x ≤ y → x * x ≤ y * y
square_le x y le = grind arith

double_square : (x : ℕ) → (2 * x) * (2 * x) ≡ 4 * (x * x)
double_square x = grind arith

pow_twice : (n : ℕ) → 2 ^ (2 * n) ≡ 2 ^ n * 2 ^ n
pow_twice zero = refl
pow_twice (suc n) =
    ap (λ e. 2 ^ e) (omega arith)
    ∙ pow_suc (suc (2 * n))
    ∙ ap (λ x. 2 * x) (pow_suc (2 * n))
    ∙ ap (λ x. 2 * (2 * x)) (pow_twice n)
    ∙ omega (arith, double_square (2 ^ n))
    ∙ ap (λ x. x * x) (sym (pow_suc n))

abbrev pub is_empty : List (ℕ × Tree) → Bool
is_empty [] = true
is_empty (e ∷ es) = false

is_empty-insert_position :
    (i : ℕ) (t : Tree) (es : List (ℕ × Tree)) → is_empty (insert_position i t es) ≡ false
is_empty-insert_position i t [] = refl
is_empty-insert_position i t (e ∷ es) = ground arith

deeper :
    (b : Bool) (dl dr lvl : ℕ)
    → ((b && leb dl lvl) && leb dr lvl) ≡ (b && leb (suc (max dl dr)) (suc lvl))
deeper b dl dr lvl = ground arith

-- A level gets a node exactly where the tree is deeper.
is_empty-nodes_at_level :
    (lvl : ℕ) (t : Tree) (ns : List (ℕ × Tree)) (sp : SearchPath)
    → is_empty (nodes_at_level lvl t ns sp) ≡ (is_empty ns && leb (get_max_depth t) lvl)
unfolding nodes_at_level get_max_depth
is_empty-nodes_at_level lvl leaf ns sp = ground arith
is_empty-nodes_at_level zero (node c l k r) ns sp =
    is_empty-insert_position sp.p (node c l k r) ns
    ∙ none_above (is_empty ns) (max (get_max_depth l) (get_max_depth r))
    ∙ ap (λ d. is_empty ns && leb d 0) (sym (get_max_depth-node c l k r))
  where
    none_above : (b : Bool) (d : ℕ) → false ≡ (b && leb (suc d) 0)
    none_above b d = ground arith
is_empty-nodes_at_level (suc lvl) (node c l k r) ns sp =
    is_empty-nodes_at_level lvl r (nodes_at_level lvl l ns (down_left sp c)) (down_right sp c)
    ∙ ap (λ b. b && leb (get_max_depth r) lvl) (is_empty-nodes_at_level lvl l ns (down_left sp c))
    ∙ deeper (is_empty ns) (get_max_depth l) (get_max_depth r) lvl
    ∙ ap (λ d. is_empty ns && leb d (suc lvl)) (sym (get_max_depth-node c l k r))

-- `get_max_depth` of a balanced leaning tree whose root is not red is at most twice its black
-- height `n`, and at most twice the binary logarithm of the number of its nodes and one. It is the
-- number of the levels that have a node: `get_nodes_at_level` finds none in a level exactly if the
-- level is not below it.
pub get_max_depth_lem :
    (n : ℕ) (t : Tree)
    → IsBalanced n t
    → IsLeaning t
    → is_red t ≡ false
    → (get_max_depth t ≤ 2 * n)
      × (2 ^ get_max_depth t ≤ suc (size t) * suc (size t))
      × ((lvl : ℕ) → is_empty (get_nodes_at_level t lvl) ≡ leb (get_max_depth t) lvl)
get_max_depth_lem n t b h off =
    let shallow : get_max_depth t ≤ 2 * n =
      omega (arith, depth_at_most n t b h, red_level_of_black t off) in
    (
      shallow,
      omega (
        arith,
        pow_le (get_max_depth t) (2 * n) shallow,
        pow_twice n,
        square_le (2 ^ n) (suc (size t)) (size_at_least n t b),
      ),
      λ lvl. is_empty-nodes_at_level lvl t [] start,
    )

-- The positions in a level, from a path whose turns are below a bound.
abbrev pub AllPositions : ℕ → List (ℕ × Tree) → Type 0
AllPositions b [] = Unit {0}
AllPositions b (e ∷ es) = (e.0 < b) × AllPositions b es

AllPositions-insert :
    (b i : ℕ) (t : Tree) (es : List (ℕ × Tree))
    → i < b
    → AllPositions b es
    → AllPositions b (insert_position i t es)
AllPositions-insert b i t es lt h = ground arith

nodes_at_level-AllPositions :
    (lvl b : ℕ) (t : Tree) (ns : List (ℕ × Tree)) (sp : SearchPath)
    → sp.p < b
    → AllPositions (b * 2 ^ lvl) ns
    → AllPositions (b * 2 ^ lvl) (nodes_at_level lvl t ns sp)
unfolding nodes_at_level
nodes_at_level-AllPositions lvl b leaf ns sp lt h = h
nodes_at_level-AllPositions zero b (node c l k r) ns sp lt h =
    AllPositions-insert (b * 1) sp.p (node c l k r) ns (omega arith) h
nodes_at_level-AllPositions (suc lvl) b (node c l k r) ns sp lt h =
    subst (λ w. AllPositions w (nodes_at_level (suc lvl) (node c l k r) ns sp)) (sym twice)
      (nodes_at_level-AllPositions lvl (b * 2) r (nodes_at_level lvl l ns (down_left sp c))
        (down_right sp c) (omega arith)
        (nodes_at_level-AllPositions lvl (b * 2) l ns (down_left sp c) (omega arith)
          (subst (λ w. AllPositions w ns) twice h)))
  where
    twice : b * 2 ^ suc lvl ≡ (b * 2) * 2 ^ lvl
    twice = ap (λ w. b * w) (pow_suc lvl) ∙ sym (mul_assoc b 2 (2 ^ lvl))

-- `get_nodes_at_level` gives every node a position below the number of places of its level, which
-- `format_level` runs through.
pub get_nodes_at_level-AllPositions :
    (t : Tree) (lvl : ℕ) → AllPositions (2 ^ lvl) (get_nodes_at_level t lvl)
get_nodes_at_level-AllPositions t lvl =
    subst (λ w. AllPositions w (get_nodes_at_level t lvl)) one
      (nodes_at_level-AllPositions lvl 1 t [] start (omega arith) tt)
  where
    one : 1 * 2 ^ lvl ≡ 2 ^ lvl
    one = omega arith
