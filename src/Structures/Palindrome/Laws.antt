-- ===== src/Structures/Palindrome/Laws.antt =====
-- `is_palindrome` tells the palindromes.
use snu_projects.Base.{
  ℕ, zero, suc, ◌+◌, ◌≡◌, refl, sym, ap, subst, ◌∙◌, Bool, true, false, ◌&&◌, List, [], ◌∷◌, ◌==◌,
  if◌then◌else◌, length, arith, ◌≤◌, ◌<◌, ltb, int_limit, Bool-cases, inl, inr,
}
use snu_projects.Structures.Deque.Array.Laws.{take_first}
use snu_projects.Structures.Palindrome.{
  is_equal, DequeOf, push_all, compare_all, is_palindrome, is_nil, reset_deque,
}

-- A list put in front of another, last element first.
abbrev pub reverse_onto : List ℕ → List ℕ → List ℕ
reverse_onto [] ys = ys
reverse_onto (x ∷ xs) ys = reverse_onto xs (x ∷ ys)

-- Does the second list begin with the first?
abbrev pub is_prefix : List ℕ → List ℕ → Bool
is_prefix [] ys = true
is_prefix (x ∷ xs) [] = false
is_prefix (x ∷ xs) (y ∷ ys) = (y == x) && is_prefix xs ys

nil_of_length : (xs : List ℕ) → length xs ≤ 0 → xs ≡ []
nil_of_length [] le = refl
nil_of_length (x ∷ xs) le = absurd (omega arith)

nil_of_is_nil : (xs : List ℕ) → is_nil xs ≡ true → xs ≡ []
nil_of_is_nil [] e = refl
nil_of_is_nil (x ∷ xs) e = ground arith

shorter : (n : ℕ) (xs : List ℕ) → length xs ≤ suc n → length (take_first xs).1 ≤ n
shorter n [] le = omega arith
shorter n (x ∷ xs) le = omega arith

first_compared :
    (ans : Bool) (c : ℕ) (cs xs : List ℕ)
    → ((if is_equal (take_first xs).0 c then ans else false) && is_prefix cs (take_first xs).1)
      ≡ (ans && is_prefix (c ∷ cs) xs)
first_compared ans c cs [] = ground arith
first_compared ans c cs (x ∷ xs) = ground arith

is_prefix_self : (xs : List ℕ) → is_prefix xs xs ≡ true
is_prefix_self [] = refl
is_prefix_self (x ∷ xs) = ground (arith, is_prefix_self xs)

prefix_whole : (xs ys : List ℕ) → length ys ≡ length xs → is_prefix xs ys ≡ true → ys ≡ xs
prefix_whole [] [] len e = refl
prefix_whole [] (y ∷ ys) len e = absurd (omega arith)
prefix_whole (x ∷ xs) [] len e = absurd (omega arith)
prefix_whole (x ∷ xs) (y ∷ ys) len e = ground (arith, prefix_whole xs ys)

length-reverse_onto : (xs ys : List ℕ) → length (reverse_onto xs ys) ≡ length xs + length ys
length-reverse_onto [] ys = omega arith
length-reverse_onto (x ∷ xs) ys = omega (arith, length-reverse_onto xs (x ∷ ys))

plus_zero : (n : ℕ) → n + 0 ≡ n
plus_zero n = omega arith

small : (i : ℕ) → i < int_limit → ltb i int_limit ≡ true
small i lt = ground arith

module _ (Deque : Type 0) (D : DequeOf Deque) where
  push_all_lem :
      (i : ℕ) (s : List ℕ) (n : ℕ) (d : Deque)
      → i + length s ≤ int_limit
      → D.CanTake (length s + n) d
      → D.CanTake n (push_all Deque D i s d)
        × (D.contents (push_all Deque D i s d) ≡ reverse_onto s (D.contents d))
  unfolding push_all
  push_all_lem i [] n d le can = (subst (λ k. D.CanTake k d) (omega arith) can, refl)
  push_all_lem i (c ∷ cs) n d le can =
      let (can_c, e) =
        D.push_front_law (length cs + n) c d (subst (λ k. D.CanTake k d) (omega arith) can) in
      let (after, held) = push_all_lem (i + 1) cs n (D.push_front c d) (omega arith) can_c in
      rw (small i (omega arith)) ((after, held ∙ ap (reverse_onto cs) e))

  compare_all_lem :
      (i : ℕ) (s : List ℕ) (n : ℕ) (d : Deque) (ans : Bool)
      → i + length s ≤ int_limit
      → D.CanTake n d
      → (compare_all Deque D i s d ans).0 ≡ (ans && is_prefix s (D.contents d))
  unfolding compare_all
  compare_all_lem i [] n d ans le can = ground arith
  compare_all_lem i (c ∷ cs) n d ans le can =
      let (can_less, e) = D.remove_front_law n d can in
      rw (small i (omega arith)) (
        compare_all_lem (i + 1) cs n (D.remove_front d).1
          (if is_equal (D.remove_front d).0 c then ans else false) (omega arith) can_less
        ∙ ap (λ p. (if is_equal p.0 c then ans else false) && is_prefix cs p.1) e
        ∙ first_compared ans c cs (D.contents d))

  -- On an empty deque that can take the characters, `is_palindrome` of a string of less than
  -- `2 ^ 31` characters is true exactly if the string is its own reverse.
  pub is_palindrome_lem :
      (s : List ℕ) (d : Deque)
      → length s < int_limit
      → D.CanTake (length s + 0) d
      → D.contents d ≡ []
      → ((is_palindrome Deque D s d).0 ≡ true → reverse_onto s [] ≡ s)
        × (reverse_onto s [] ≡ s → (is_palindrome Deque D s d).0 ≡ true)
  unfolding is_palindrome
  is_palindrome_lem s d counted can none_held =
      let (after, held) = push_all_lem 0 s 0 d (omega arith) can in
      let told =
        compare_all_lem 0 s 0 (push_all Deque D 0 s d) true (omega arith) after
        ∙ ap (is_prefix s) (held ∙ ap (reverse_onto s) none_held) in
      (
        λ yes.
            prefix_whole s (reverse_onto s []) (length-reverse_onto s [] ∙ plus_zero (length s))
              (sym told ∙ yes),
        λ same. told ∙ ap (is_prefix s) same ∙ is_prefix_self s,
      )

  -- `reset_deque` of a deque for which the laws of the interface hold ends when every element has
  -- been taken out: with as much fuel as there are elements, or more, the deque is empty.
  pub reset_deque_lem :
      (fuel n : ℕ) (d : Deque)
      → D.CanTake n d
      → length (D.contents d) ≤ fuel
      → (D.contents (reset_deque Deque D fuel d) ≡ [])
        × (D.empty (reset_deque Deque D fuel d) ≡ true)
  unfolding reset_deque
  reset_deque_lem zero n d can enough =
      let none_left = nil_of_length (D.contents d) enough in
      (none_left, D.empty_law n d can ∙ ap is_nil none_left)
  reset_deque_lem (suc fuel) n d can enough =
      let (can_less, e) = D.remove_front_law n d can in
      elim (Bool-cases (D.empty d)) [
        | inl nothing ↦
            rw nothing
              ((nil_of_is_nil (D.contents d) (sym (D.empty_law n d can) ∙ nothing), nothing))
        | inr something ↦ rw something (
            reset_deque_lem fuel n (D.remove_front d).1 can_less
              (rw (ap (λ p. p.1) e) (shorter fuel (D.contents d) enough)))
      ]
