-- ===== src/Structures/Deque/Array/Slice.antt =====
-- A run of places of a ring, from a place on.
use snu_projects.Base.{
  length, ℕ, zero, suc, ◌+◌, ◌≤◌, ◌<◌, ◌^◌, ◌≡◌, refl, ap, ap₂, List, [], ◌∷◌, ◌++◌, arith, ◌==◌,
  if◌then◌else◌, set, get_or, get_or-set_ne, ◌⊎◌, none, some, get_elem?,
}
use snu_projects.Structures.Deque.Array.{step_up, front_down, back_down}

-- The next place, and the one before.
abbrev pub next : ℕ → ℕ → ℕ
next cap i = if suc i == cap then 0 else suc i

pub next_inside : (cap i j : ℕ) → suc i ≡ j → j < cap → next cap i ≡ j
next_inside cap i j e lt = ground arith

pub next_wrap : (cap i : ℕ) → suc i ≡ cap → next cap i ≡ 0
next_wrap cap i e = ground arith

pub step_up_lem : (cap i : ℕ) → i < cap → cap < 2 ^ 64 → step_up cap i ≡ next cap i
unfolding step_up
step_up_lem cap i lt small = ground arith

pub next-front_down :
    (cap i : ℕ)
    → i < cap
    → cap < 2 ^ 64
    → (front_down cap i < cap) × (next cap (front_down cap i) ≡ i)
unfolding front_down
next-front_down cap i lt small = ground arith

pub back_down_lem :
    (cap i : ℕ)
    → i < cap
    → cap < 2 ^ 64
    → (back_down cap i < cap)
      × ((suc (back_down cap i) ≡ i) ⊎ ((suc (back_down cap i) ≡ cap) × (i ≡ 0)))
unfolding back_down
back_down_lem cap i lt small = ground arith

-- The `n` elements from place `i` on.
unfoldable pub slice : List ℕ → ℕ → ℕ → ℕ → List ℕ
slice arr cap i zero = []
slice arr cap i (suc n) = get_or arr i 0 ∷ slice arr cap (next cap i) n

-- A write at a place outside of the run.
pub slice-set :
    (arr : List ℕ) (cap i n p v : ℕ)
    → i < cap
    → p < cap
    → (p < i → i + n ≤ p + cap)
    → (i ≤ p → i + n ≤ p)
    → slice (set arr p v) cap i n ≡ slice arr cap i n
unfolding slice
slice-set arr cap i zero p v lt lp below above = refl
slice-set arr cap i (suc n) p v lt lp below above =
    ap₂ ◌∷◌ (get_or-set_ne arr p i v 0 (λ e. omega arith))
      (slice-set arr cap (next cap i) n p v (ground arith) lp (ground arith) (ground arith))

-- The place behind a run.
abbrev pub Ends : ℕ → ℕ → ℕ → ℕ → Type 0
Ends cap i n e = (i + n ≡ e) ⊎ (i + n ≡ e + cap)

pub slice-last :
    (arr : List ℕ) (cap i n e : ℕ)
    → i < cap
    → e < cap
    → n < cap
    → Ends cap i n e
    → slice arr cap i (suc n) ≡ slice arr cap i n ++ (get_or arr e 0 ∷ [])
unfolding slice
slice-last arr cap i zero e lt le small ends = ground arith
slice-last arr cap i (suc n) e lt le small ends =
    ap (λ xs. get_or arr i 0 ∷ xs)
      (slice-last arr cap (next cap i) n e (ground arith) le (omega arith) (ground arith))

pub get_elem?-slice :
    (arr : List ℕ) (cap i n j e : ℕ)
    → i < cap
    → e < cap
    → n ≤ cap
    → j < n
    → Ends cap i j e
    → get_elem? (slice arr cap i n) j ≡ some (get_or arr e 0)
unfolding slice
get_elem?-slice arr cap i zero j e lt le small lj ends = absurd (omega arith)
get_elem?-slice arr cap i (suc n) zero e lt le small lj ends = ground arith
get_elem?-slice arr cap i (suc n) (suc j) e lt le small lj ends =
    get_elem?-slice arr cap (next cap i) n j e (ground arith) le (omega arith) (omega arith)
      (ground arith)

pub get_elem?-slice_behind :
    (arr : List ℕ) (cap i n j : ℕ) → n ≤ j → get_elem? (slice arr cap i n) j ≡ none
unfolding slice
get_elem?-slice_behind arr cap i zero j le = refl
get_elem?-slice_behind arr cap i (suc n) zero le = absurd (omega arith)
get_elem?-slice_behind arr cap i (suc n) (suc j) le =
    get_elem?-slice_behind arr cap (next cap i) n j (omega arith)

pub length-slice : (arr : List ℕ) (cap i n : ℕ) → length (slice arr cap i n) ≡ n
unfolding slice
length-slice arr cap i zero = refl
length-slice arr cap i (suc n) = ap suc (length-slice arr cap (next cap i) n)
