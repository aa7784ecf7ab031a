-- ===== src/Structures/Palindrome.antt =====
-- data-structure/01-deque/palindrome/include/palindrome.hpp, over any deque. A string is the list of
-- its characters.
pub mod Laws
pub mod ArrayDequeOf
mod Tests
use snu_projects.Base.{
  ℕ, zero, suc, ◌+◌, ltb, int_limit, ◌≡◌, Bool, true, false, not, ◌&&◌, List, [], ◌∷◌, Option, none,
  some, ◌==◌, if◌then◌else◌,
}
use snu_projects.Structures.Deque.Array.Laws.{take_first}

-- `operator==` of an `std::optional` and a value
abbrev pub is_equal : Option ℕ → ℕ → Bool
is_equal none c = false
is_equal (some x) c = x == c

abbrev pub is_nil : List ℕ → Bool
is_nil [] = true
is_nil (x ∷ xs) = false

-- What the class asks of its parameter `Deque`: the operations, the elements from the front to the
-- back, and that a deque which can take some more elements does what a sequence does.
pub record DequeOf (Deque : Type 0) : Type 1 where
  pub push_front : ℕ → Deque → Deque
  pub remove_front : Deque → Option ℕ × Deque
  pub empty : Deque → Bool
  pub contents : Deque → List ℕ
  pub CanTake : ℕ → Deque → Type 0
  pub push_front_law :
      (n item : ℕ) (d : Deque)
      → CanTake (suc n) d
      → CanTake n (push_front item d) × (contents (push_front item d) ≡ item ∷ contents d)
  pub remove_front_law :
      (n : ℕ) (d : Deque)
      → CanTake n d
      → CanTake n (remove_front d).1
        × (((remove_front d).0, contents (remove_front d).1) ≡ take_first (contents d))
  pub empty_law : (n : ℕ) (d : Deque) → CanTake n d → empty d ≡ is_nil (contents d)

module _ (Deque : Type 0) (D : DequeOf Deque) where
  -- The first loop of `is_palindrome`, from index `i` on: the `int` that counts becomes negative
  -- behind its greatest value, and is then no `size_t` below the length, so the loop ends.
  unfoldable pub push_all : (i : ℕ) → List ℕ → Deque → Deque
  push_all i [] d = d
  push_all i (c ∷ cs) d =
      let further = push_all (i + 1) cs (D.push_front c d) in if ltb i int_limit then further else d

  -- The second loop
  unfoldable pub compare_all : (i : ℕ) → List ℕ → Deque → Bool → Bool × Deque
  compare_all i [] d ans = (ans, d)
  compare_all i (c ∷ cs) d ans =
      let further =
        compare_all (i + 1) cs (D.remove_front d).1
          (if is_equal (D.remove_front d).0 c then ans else false) in
      if ltb i int_limit then further else (ans, d)

  -- `is_palindrome`
  unfoldable pub is_palindrome : List ℕ → Deque → Bool × Deque
  unfolding push_all compare_all
  is_palindrome s d = compare_all 0 s (push_all 0 s d) true

  -- `reset_deque`, with fuel for the elements that are taken out.
  unfoldable pub reset_deque : ℕ → Deque → Deque
  reset_deque zero d = d
  reset_deque (suc fuel) d =
      let rest = reset_deque fuel (D.remove_front d).1 in if D.empty d then d else rest
