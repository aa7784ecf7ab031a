-- ===== src/Simulator/CacheBase/Lookup.antt =====
-- The loop over the ways in `access` of CPU-cache/WonhoLee_Lab4/cache_base/cache_base.cc, and lists
-- of ways as sets.
use snu_projects.Base.{
  ℕ, zero, suc, ◌+◌, ◌≤◌, ◌<◌, ◌≡◌, ◌≢◌, refl, sym, subst, true, false, ◌==◌, List, [], ◌∷◌, Option,
  none, some, arith, inl, inr, Bool-cases, eq_of_==,
}
use snu_projects.Structures.Keys.{has_key, remove_key}
use snu_projects.Simulator.CacheBase.{CacheEntry, matches, find_way, invalid_way, back, pop_back}

-- What the loop finds from way `j` on among `m` ways.
abbrev pub IsFound : (ℕ → CacheEntry) → ℕ → ℕ → ℕ → Option ℕ → Type 0
IsFound entry tag j m none = (i : ℕ) → j ≤ i → i < j + m → matches tag (entry i) ≡ false
IsFound entry tag j m (some i) = (j ≤ i) × (i < j + m) × (matches tag (entry i) ≡ true)

pub find_way_lem :
    (entry : ℕ → CacheEntry) (tag j m : ℕ) → IsFound entry tag j m (find_way entry tag j m)
unfolding find_way
find_way_lem entry tag j zero = λ i ge lt. absurd (omega arith)
find_way_lem entry tag j (suc m) = elim (Bool-cases (matches tag (entry j))) [
  | inl e ↦ rw e ((omega arith, omega arith, e))
  | inr e ↦ rw e (further (find_way entry tag (suc j) m) (find_way_lem entry tag (suc j) m) e)
]
  where
    further :
        (o : Option ℕ)
        → IsFound entry tag (suc j) m o
        → matches tag (entry j) ≡ false
        → IsFound entry tag j (suc m) o
    further none f off = λ i ge lt. elim (Bool-cases (i == j)) [
      | inl e ↦ subst (λ x. matches tag (entry x) ≡ false) (sym (eq_of_== i j e)) off
      | inr e ↦ f i (ground arith) (omega arith)
    ]
    further (some i) f off = (omega arith, omega arith, f.2)

-- The way seen so far is invalid, and one of the ways before.
abbrev pub IsSeen : (ℕ → CacheEntry) → ℕ → Option ℕ → Type 0
IsSeen entry j none = (i : ℕ) → i < j → (entry i).valid ≡ true
IsSeen entry j (some i) = (i < j) × ((entry i).valid ≡ false)

invalid_way-IsSeen :
    (entry : ℕ → CacheEntry) (j m n : ℕ) (seen : Option ℕ)
    → n ≡ j + m
    → IsSeen entry j seen
    → IsSeen entry n (invalid_way entry j m seen)
unfolding invalid_way
invalid_way-IsSeen entry j zero n seen e s = subst (λ x. IsSeen entry x seen) (omega arith) s
invalid_way-IsSeen entry j (suc m) n seen e s = elim (Bool-cases (entry j).valid) [
  | inl v ↦ rw v (invalid_way-IsSeen entry (suc j) m n seen (omega arith) (more seen s v))
  | inr v ↦ rw v (invalid_way-IsSeen entry (suc j) m n (some j) (omega arith) (omega arith, v))
]
  where
    more : (o : Option ℕ) → IsSeen entry j o → (entry j).valid ≡ true → IsSeen entry (suc j) o
    more none f v = λ i lt. elim (Bool-cases (i == j)) [
      | inl e ↦ subst (λ x. (entry x).valid ≡ true) (sym (eq_of_== i j e)) v
      | inr e ↦ f i (ground arith)
    ]
    more (some i) f v = (omega arith, f.1)

pub invalid_way_lem : (entry : ℕ → CacheEntry) (m : ℕ) → IsSeen entry m (invalid_way entry 0 m none)
invalid_way_lem entry m =
    invalid_way-IsSeen entry 0 m m none (omega arith) (λ i lt. absurd (omega arith))

-- Lists of ways without a way twice.
abbrev pub IsDistinct : List ℕ → Type 0
IsDistinct [] = Unit {0}
IsDistinct (x ∷ xs) = (has_key x xs ≡ false) × IsDistinct xs

pub has_key-remove_self :
    (x : ℕ) (xs : List ℕ) → IsDistinct xs → has_key x (remove_key x xs) ≡ false
unfolding remove_key
has_key-remove_self x [] d = refl
has_key-remove_self x (y ∷ xs) d = ground (arith, has_key-remove_self x xs)

pub has_key-remove_ne : (x y : ℕ) (xs : List ℕ) → x ≢ y → has_key x (remove_key y xs) ≡ has_key x xs
unfolding remove_key
has_key-remove_ne x y [] ne = refl
has_key-remove_ne x y (z ∷ xs) ne = ground (arith, has_key-remove_ne x y xs)

pub remove_key-IsDistinct : (x : ℕ) (xs : List ℕ) → IsDistinct xs → IsDistinct (remove_key x xs)
unfolding remove_key
remove_key-IsDistinct x [] d = tt
remove_key-IsDistinct x (y ∷ xs) d =
    ground (arith, remove_key-IsDistinct x xs, has_key-remove_ne y x xs)

-- The least recently used way, and the others.
pub has_key-back : (x : ℕ) (xs : List ℕ) → has_key (back (x ∷ xs)) (x ∷ xs) ≡ true
unfolding back
has_key-back x [] = ground arith
has_key-back x (y ∷ xs) = ground (arith, has_key-back y xs)

pub has_key-pop_back : (x : ℕ) (xs : List ℕ) → has_key x (pop_back xs) ≡ true → has_key x xs ≡ true
unfolding pop_back
has_key-pop_back x [] h = h
has_key-pop_back x (y ∷ []) h = ground arith
has_key-pop_back x (y ∷ z ∷ xs) h = ground (arith, has_key-pop_back x (z ∷ xs))

pub has_key-pop_back_ne :
    (x : ℕ) (xs : List ℕ) → has_key x xs ≡ true → x ≢ back xs → has_key x (pop_back xs) ≡ true
unfolding pop_back back
has_key-pop_back_ne x [] h ne = h
has_key-pop_back_ne x (y ∷ []) h ne = ground arith
has_key-pop_back_ne x (y ∷ z ∷ xs) h ne = ground (arith, has_key-pop_back_ne x (z ∷ xs))

pub pop_back-IsDistinct :
    (xs : List ℕ)
    → IsDistinct xs
    → IsDistinct (pop_back xs) × (has_key (back xs) (pop_back xs) ≡ false)
unfolding pop_back back
pop_back-IsDistinct [] d = (tt, refl)
pop_back-IsDistinct (y ∷ []) d = (tt, refl)
pop_back-IsDistinct (y ∷ z ∷ xs) d =
    ground (arith, pop_back-IsDistinct (z ∷ xs), has_key-pop_back y (z ∷ xs), has_key-back z xs)
