-- ===== src/Structures/Palindrome/Tests.antt =====
-- The array deque as the parameter of the palindrome test.
use snu_projects.Base.{◌≤◌, ◌≡◌, ap, true, [], ◌∷◌, length, arith}
use snu_projects.Structures.Palindrome.{is_palindrome, reset_deque}
use snu_projects.Structures.Palindrome.ArrayDequeOf.{array_deque, after_push, empty_deque_CanTake}
use snu_projects.Structures.Palindrome.Laws.{reverse_onto, is_palindrome_lem, reset_deque_lem}
use snu_projects.Structures.Deque.Array.{ArrayDeque, empty_deque, push_front, empty}
use snu_projects.Structures.Deque.Array.Laws.{contents, empty_deque_lem}

is_palindrome_lem_example :
    ((is_palindrome ArrayDeque array_deque (1 ∷ (2 ∷ (1 ∷ []))) empty_deque).0 ≡ true
      → reverse_onto (1 ∷ (2 ∷ (1 ∷ []))) [] ≡ 1 ∷ (2 ∷ (1 ∷ [])))
    × (reverse_onto (1 ∷ (2 ∷ (1 ∷ []))) [] ≡ 1 ∷ (2 ∷ (1 ∷ []))
        → (is_palindrome ArrayDeque array_deque (1 ∷ (2 ∷ (1 ∷ []))) empty_deque).0 ≡ true)
is_palindrome_lem_example =
    is_palindrome_lem ArrayDeque array_deque (1 ∷ (2 ∷ (1 ∷ []))) empty_deque (omega arith)
      (empty_deque_CanTake 3 (omega arith)) empty_deque_lem.1

one_held : length (contents (push_front 4 empty_deque)) ≤ 2
one_held = omega (
  arith,
  ap length ((after_push 0 4 empty_deque (empty_deque_CanTake 1 (omega arith))).1),
  ap length empty_deque_lem.1,
)

reset_deque_lem_example :
    (contents (reset_deque ArrayDeque array_deque 2 (push_front 4 empty_deque)) ≡ [])
    × (empty (reset_deque ArrayDeque array_deque 2 (push_front 4 empty_deque)) ≡ true)
reset_deque_lem_example =
    reset_deque_lem ArrayDeque array_deque 2 0 (push_front 4 empty_deque)
      (after_push 0 4 empty_deque (empty_deque_CanTake 1 (omega arith))).0 one_held
