-- ===== src/Simulator/CacheBase/Tags.antt =====
-- Lists of ways, counted, and the tags that the ways of a list hold, for `access` of
-- CPU-cache/WonhoLee_Lab4/cache_base/cache_base.cc.
use snu_projects.Base.{
  ℕ, zero, suc, ◌≤◌, ◌<◌, ◌≡◌, ◌≢◌, refl, sym, ap, ap₂, ◌∙◌, true, false, ◌==◌, List, [], ◌∷◌,
  arith, inl, inr, Bool-cases, eq_of_==, ne_of_==, ==_of_ne, length, map, ◌⊎◌,
}
use mathlib.Core.Bool.{true≢false}
use snu_projects.Structures.Keys.{has_key, remove_key}
use snu_projects.Simulator.CacheBase.{pop_back}
use snu_projects.Simulator.CacheBase.Lookup.{
  IsDistinct, has_key-remove_self, has_key-remove_ne, remove_key-IsDistinct,
}

-- Distinct numbers below `n` are `n` at most, and all of them are `n` at least.
pub length-remove_key :
    (x : ℕ) (xs : List ℕ) → has_key x xs ≡ true → length xs ≡ suc (length (remove_key x xs))
unfolding remove_key
length-remove_key x [] h = ground arith
length-remove_key x (y ∷ xs) h = ground (arith, length-remove_key x xs)

pub length_le :
    (n : ℕ) (xs : List ℕ) → IsDistinct xs → ((x : ℕ) → has_key x xs ≡ true → x < n) → length xs ≤ n
length_le zero [] d below = omega arith
length_le zero (x ∷ xs) d below = let low = below x (ground arith) in absurd (omega arith)
length_le (suc n) xs d below = elim (Bool-cases (has_key n xs)) [
  | inl h ↦
      let fewer =
        length_le n (remove_key n xs) (remove_key-IsDistinct n xs d)
          (λ x held. smaller x held (Bool-cases (x == n))) in
      let one = length-remove_key n xs h in omega arith
  | inr h ↦
      let fewer = length_le n xs d (λ x held. other x held h (Bool-cases (x == n))) in omega arith
]
  where
    smaller :
        (x : ℕ)
        → has_key x (remove_key n xs) ≡ true
        → ((x == n) ≡ true) ⊎ ((x == n) ≡ false)
        → x < n
    smaller x held (inl e) = absurd (
        true≢false (
          sym held
          ∙ ap (λ y. has_key y (remove_key n xs)) (eq_of_== x n e)
          ∙ has_key-remove_self n xs d))
    smaller x held (inr e) =
        let ne = ne_of_== x n e in
        let lt = below x (sym (has_key-remove_ne x n xs ne) ∙ held) in omega arith

    other :
        (x : ℕ)
        → has_key x xs ≡ true
        → has_key n xs ≡ false
        → ((x == n) ≡ true) ⊎ ((x == n) ≡ false)
        → x < n
    other x held out (inl e) =
        absurd (true≢false (sym held ∙ ap (λ y. has_key y xs) (eq_of_== x n e) ∙ out))
    other x held out (inr e) = let ne = ne_of_== x n e in let lt = below x held in omega arith

pub length_ge : (n : ℕ) (xs : List ℕ) → ((x : ℕ) → x < n → has_key x xs ≡ true) → n ≤ length xs
length_ge zero xs each = omega arith
length_ge (suc n) xs each =
    let fewer =
      length_ge n (remove_key n xs)
        (λ x lt. has_key-remove_ne x n xs (omega arith) ∙ each x (omega arith)) in
    let one = length-remove_key n xs (each n (omega arith)) in omega arith

pub length-map : (f : ℕ → ℕ) (xs : List ℕ) → length (map f xs) ≡ length xs
length-map f [] = refl
length-map f (x ∷ xs) = ap suc (length-map f xs)

pub map-same :
    (f g : ℕ → ℕ) (xs : List ℕ) → ((x : ℕ) → has_key x xs ≡ true → f x ≡ g x) → map f xs ≡ map g xs
map-same f g [] same = refl
map-same f g (x ∷ xs) same =
    ap₂ (λ y ys. y ∷ ys) (same x (ground arith)) (map-same f g xs (λ y h. same y (ground arith)))

pub map-pop_back : (f : ℕ → ℕ) (xs : List ℕ) → map f (pop_back xs) ≡ pop_back (map f xs)
unfolding pop_back
map-pop_back f [] = refl
map-pop_back f (x ∷ []) = refl
map-pop_back f (x ∷ y ∷ xs) = ap (λ l. f x ∷ l) (map-pop_back f (y ∷ xs))

pub map-remove_key :
    (f : ℕ → ℕ) (j : ℕ) (xs : List ℕ)
    → ((x : ℕ) → has_key x xs ≡ true → f x ≡ f j → x ≡ j)
    → map f (remove_key j xs) ≡ remove_key (f j) (map f xs)
unfolding remove_key
map-remove_key f j [] one = refl
map-remove_key f j (x ∷ xs) one = elim (Bool-cases (j == x)) [
  | inl e ↦ rw (e, same_tag e) (refl)
  | inr e ↦
      rw (e, other_tag e) (ap (λ l. f x ∷ l) (map-remove_key f j xs (λ y h. one y (ground arith))))
]
  where
    same_tag : (j == x) ≡ true → (f j == f x) ≡ true
    same_tag e = let same = ap f (eq_of_== j x e) in ground arith

    other_tag : (j == x) ≡ false → (f j == f x) ≡ false
    other_tag e =
        ==_of_ne (f j) (f x) (λ same. ne_of_== j x e (sym (one x (ground arith) (sym same))))

pub has_key-map :
    (f : ℕ → ℕ) (j : ℕ) (xs : List ℕ) → has_key j xs ≡ true → has_key (f j) (map f xs) ≡ true
has_key-map f j [] h = ground arith
has_key-map f j (x ∷ xs) h = elim (Bool-cases (j == x)) [
  | inl e ↦ let same = ap f (eq_of_== j x e) in ground arith
  | inr e ↦ let later = has_key-map f j xs (ground arith) in ground arith
]

pub not_has_key-map :
    (f : ℕ → ℕ) (t : ℕ) (xs : List ℕ)
    → ((x : ℕ) → has_key x xs ≡ true → f x ≢ t)
    → has_key t (map f xs) ≡ false
not_has_key-map f t [] off = refl
not_has_key-map f t (x ∷ xs) off =
    let here = off x (ground arith) in
    let later = not_has_key-map f t xs (λ y h. off y (ground arith)) in ground arith
