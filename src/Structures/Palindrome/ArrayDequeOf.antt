-- ===== src/Structures/Palindrome/ArrayDequeOf.antt =====
-- The array deque is a deque in the sense of the palindrome test, for as many elements as an `int`
-- can count.
use snu_projects.Base.{
  ℕ, suc, ◌+◌, ◌≤◌, ◌≡◌, sym, ap, ◌∙◌, List, [], ◌∷◌, length, arith, ◌==◌, int_limit,
}
use snu_projects.Structures.Palindrome.{DequeOf, is_nil}
use snu_projects.Structures.Deque.Array.{ArrayDeque, empty_deque, push_front, remove_front, empty}
use snu_projects.Structures.Deque.Array.Slice.{next, length-slice}
use snu_projects.Structures.Deque.Array.Laws.{
  IsRing, HasRoom, contents, take_first, push_front_lem, remove_front_lem, empty_deque_lem,
}

-- A ring that an `int` counts when it is doubled, while `n` elements are pushed: it is full with one
-- element less than it has places.
abbrev pub CanTake : ℕ → ArrayDeque → Type 0
CanTake n d = IsRing d × (d.size_ + n + 1 ≤ int_limit)

length-contents : (d : ArrayDeque) → length (contents d) ≡ d.size_
length-contents d = length-slice d.arr d.capacity_ (next d.capacity_ d.front) d.size_

CanTake-HasRoom : (n : ℕ) (d : ArrayDeque) → CanTake (suc n) d → HasRoom d
CanTake-HasRoom n d ((len, lf, lb, ls, ends, small), room) full = ground arith

length-take_first : (xs : List ℕ) → length (take_first xs).1 ≤ length xs
length-take_first [] = omega arith
length-take_first (x ∷ xs) = omega arith

pub after_push :
    (n item : ℕ) (d : ArrayDeque)
    → CanTake (suc n) d
    → CanTake n (push_front item d) × (contents (push_front item d) ≡ item ∷ contents d)
after_push n item d can =
    let (ring, e) = push_front_lem item d can.0 (CanTake-HasRoom n d can) in
    let grown =
      sym (length-contents (push_front item d)) ∙ ap length e ∙ ap suc (length-contents d) in
    ((ring, omega (arith, can.1)), e)

pub after_removal :
    (n : ℕ) (d : ArrayDeque)
    → CanTake n d
    → CanTake n (remove_front d).1
      × (((remove_front d).0, contents (remove_front d).1) ≡ take_first (contents d))
after_removal n d can =
    let (ring, e) = remove_front_lem d can.0 in
    let left = sym (length-contents (remove_front d).1) ∙ ap (λ p. length p.1) e in
    ((ring, omega (arith, can.1, length-take_first (contents d), length-contents d)), e)

is_nil-length : (xs : List ℕ) → (length xs == 0) ≡ is_nil xs
is_nil-length [] = ground arith
is_nil-length (x ∷ xs) = ground arith

pub empty-is_nil : (n : ℕ) (d : ArrayDeque) → CanTake n d → empty d ≡ is_nil (contents d)
empty-is_nil n d can = ap (λ k. k == 0) (sym (length-contents d)) ∙ is_nil-length (contents d)

abbrev pub array_deque : DequeOf ArrayDeque
array_deque = record {
  push_front = push_front;
  remove_front = remove_front;
  empty = empty;
  contents = contents;
  CanTake = CanTake;
  push_front_law = after_push;
  remove_front_law = after_removal;
  empty_law = empty-is_nil;
}

pub empty_deque_CanTake : (n : ℕ) → n + 1 ≤ int_limit → CanTake n empty_deque
unfolding empty_deque
empty_deque_CanTake n le = (empty_deque_lem.0, omega arith)
