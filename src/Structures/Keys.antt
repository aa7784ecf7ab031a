-- ===== src/Structures/Keys.antt =====
-- Sets of keys as sorted lists: what the search trees of data-structure stand for.
pub mod Between
use snu_projects.Base.{
  ℕ, ◌<◌, ◌≤◌, ◌≡◌, refl, Bool, true, false, ◌||◌, List, [], ◌∷◌, ◌++◌, arith, ◌==◌, ltb,
  if◌then◌else◌,
}

-- A key put in its place; one that is there already is not put twice.
unfoldable pub insert_key : ℕ → List ℕ → List ℕ
insert_key k [] = k ∷ []
insert_key k (x ∷ xs) =
    let rest = insert_key k xs in
    if ltb k x then k ∷ (x ∷ xs) else if k == x then x ∷ xs else x ∷ rest

unfoldable pub remove_key : ℕ → List ℕ → List ℕ
remove_key k [] = []
remove_key k (x ∷ xs) = let rest = remove_key k xs in if k == x then xs else x ∷ rest

abbrev pub has_key : ℕ → List ℕ → Bool
has_key k [] = false
has_key k (x ∷ xs) = (k == x) || has_key k xs

abbrev pub AllBelow : ℕ → List ℕ → Type 0
AllBelow b [] = Unit {0}
AllBelow b (x ∷ xs) = (x < b) × AllBelow b xs

abbrev pub AllAbove : ℕ → List ℕ → Type 0
AllAbove b [] = Unit {0}
AllAbove b (x ∷ xs) = (b < x) × AllAbove b xs

-- Strictly ascending.
abbrev pub IsAscending : List ℕ → Type 0
IsAscending [] = Unit {0}
IsAscending (x ∷ xs) = AllAbove x xs × IsAscending xs

pub AllBelow-mono : (b c : ℕ) (xs : List ℕ) → b ≤ c → AllBelow b xs → AllBelow c xs
AllBelow-mono b c [] le h = tt
AllBelow-mono b c (x ∷ xs) le h = (omega arith, AllBelow-mono b c xs le h.1)

pub lt_of_AllBelow :
    (b : ℕ) (xs : List ℕ) (k : ℕ) (ys : List ℕ) → AllBelow b (xs ++ (k ∷ ys)) → k < b
lt_of_AllBelow b [] k ys h = h.0
lt_of_AllBelow b (x ∷ xs) k ys h = lt_of_AllBelow b xs k ys h.1

pub AllAbove-mono : (b c : ℕ) (xs : List ℕ) → c ≤ b → AllAbove b xs → AllAbove c xs
AllAbove-mono b c [] le h = tt
AllAbove-mono b c (x ∷ xs) le h = (omega arith, AllAbove-mono b c xs le h.1)

AllAbove-append : (b : ℕ) (xs ys : List ℕ) → AllAbove b (xs ++ ys) → AllAbove b xs × AllAbove b ys
AllAbove-append b [] ys h = (tt, h)
AllAbove-append b (x ∷ xs) ys h =
    let (front, back) = AllAbove-append b xs ys h.1 in ((h.0, front), back)

-- The parts of an ascending list around one of its keys.
pub IsAscending-split :
    (xs : List ℕ) (k : ℕ) (ys : List ℕ)
    → IsAscending (xs ++ (k ∷ ys))
    → IsAscending xs × AllBelow k xs × AllAbove k ys × IsAscending ys
IsAscending-split [] k ys h = (tt, tt, h.0, h.1)
IsAscending-split (x ∷ xs) k ys h =
    let (asc, below, above, rest) = IsAscending-split xs k ys h.1 in
    let (front, back) = AllAbove-append x xs (k ∷ ys) h.0 in
    ((front, asc), (back.0, below), above, rest)

pub insert_key-left :
    (k m : ℕ) (xs ys : List ℕ) → k < m → insert_key k (xs ++ (m ∷ ys)) ≡ insert_key k xs ++ (m ∷ ys)
unfolding insert_key
insert_key-left k m [] ys lt = ground arith
insert_key-left k m (x ∷ xs) ys lt = ground (arith, insert_key-left k m xs ys lt)

pub insert_key-right :
    (k m : ℕ) (xs ys : List ℕ)
    → m < k
    → AllBelow m xs
    → insert_key k (xs ++ (m ∷ ys)) ≡ xs ++ (m ∷ insert_key k ys)
unfolding insert_key
insert_key-right k m [] ys lt b = ground arith
insert_key-right k m (x ∷ xs) ys lt b = ground (arith, insert_key-right k m xs ys lt)

pub insert_key-there :
    (m : ℕ) (xs ys : List ℕ) → AllBelow m xs → insert_key m (xs ++ (m ∷ ys)) ≡ xs ++ (m ∷ ys)
unfolding insert_key
insert_key-there m [] ys b = ground arith
insert_key-there m (x ∷ xs) ys b = ground (arith, insert_key-there m xs ys)

remove_key-above : (k : ℕ) (xs : List ℕ) → AllAbove k xs → remove_key k xs ≡ xs
unfolding remove_key
remove_key-above k [] a = refl
remove_key-above k (x ∷ xs) a = ground (arith, remove_key-above k xs)

pub remove_key-left :
    (k m : ℕ) (xs ys : List ℕ)
    → k < m
    → AllAbove m ys
    → remove_key k (xs ++ (m ∷ ys)) ≡ remove_key k xs ++ (m ∷ ys)
unfolding remove_key
remove_key-left k m [] ys lt a = ground (arith, remove_key-above k ys, AllAbove-mono m k ys)
remove_key-left k m (x ∷ xs) ys lt a = ground (arith, remove_key-left k m xs ys lt a)

pub remove_key-right :
    (k m : ℕ) (xs ys : List ℕ)
    → m < k
    → AllBelow m xs
    → remove_key k (xs ++ (m ∷ ys)) ≡ xs ++ (m ∷ remove_key k ys)
unfolding remove_key
remove_key-right k m [] ys lt b = ground arith
remove_key-right k m (x ∷ xs) ys lt b = ground (arith, remove_key-right k m xs ys lt)

pub remove_key-here :
    (m : ℕ) (xs ys : List ℕ) → AllBelow m xs → remove_key m (xs ++ (m ∷ ys)) ≡ xs ++ ys
unfolding remove_key
remove_key-here m [] ys b = ground arith
remove_key-here m (x ∷ xs) ys b = ground (arith, remove_key-here m xs ys)

pub has_key-above : (k : ℕ) (xs : List ℕ) → AllAbove k xs → has_key k xs ≡ false
has_key-above k [] a = refl
has_key-above k (x ∷ xs) a = ground (arith, has_key-above k xs)

pub has_key-left :
    (k m : ℕ) (xs ys : List ℕ) → k < m → AllAbove m ys → has_key k (xs ++ (m ∷ ys)) ≡ has_key k xs
has_key-left k m [] ys lt a = ground (arith, has_key-above k ys, AllAbove-mono m k ys)
has_key-left k m (x ∷ xs) ys lt a = ground (arith, has_key-left k m xs ys lt a)

pub has_key-right :
    (k m : ℕ) (xs ys : List ℕ) → m < k → AllBelow m xs → has_key k (xs ++ (m ∷ ys)) ≡ has_key k ys
has_key-right k m [] ys lt b = ground arith
has_key-right k m (x ∷ xs) ys lt b = ground (arith, has_key-right k m xs ys lt)

pub has_key-here : (m : ℕ) (xs ys : List ℕ) → has_key m (xs ++ (m ∷ ys)) ≡ true
has_key-here m [] ys = ground arith
has_key-here m (x ∷ xs) ys = ground (arith, has_key-here m xs ys)

-- Adding and removing a key keep the order, and change no other key.
AllAbove-insert : (b k : ℕ) (xs : List ℕ) → b < k → AllAbove b xs → AllAbove b (insert_key k xs)
unfolding insert_key
AllAbove-insert b k [] lt a = (lt, tt)
AllAbove-insert b k (x ∷ xs) lt a = ground (arith, AllAbove-insert b k xs lt)

pub insert_key-IsAscending : (k : ℕ) (xs : List ℕ) → IsAscending xs → IsAscending (insert_key k xs)
unfolding insert_key
insert_key-IsAscending k [] s = (tt, tt)
insert_key-IsAscending k (x ∷ xs) s =
    ground (arith, insert_key-IsAscending k xs, AllAbove-mono x k xs, AllAbove-insert x k xs)

AllAbove-remove : (b k : ℕ) (xs : List ℕ) → AllAbove b xs → AllAbove b (remove_key k xs)
unfolding remove_key
AllAbove-remove b k [] a = tt
AllAbove-remove b k (x ∷ xs) a = ground (arith, AllAbove-remove b k xs)

pub remove_key-IsAscending : (k : ℕ) (xs : List ℕ) → IsAscending xs → IsAscending (remove_key k xs)
unfolding remove_key
remove_key-IsAscending k [] s = tt
remove_key-IsAscending k (x ∷ xs) s =
    ground (arith, remove_key-IsAscending k xs, AllAbove-remove x k xs)

pub has_key-insert :
    (j k : ℕ) (xs : List ℕ) → has_key j (insert_key k xs) ≡ ((j == k) || has_key j xs)
unfolding insert_key
has_key-insert j k [] = refl
has_key-insert j k (x ∷ xs) = ground (arith, has_key-insert j k xs)

pub has_key-remove :
    (j k : ℕ) (xs : List ℕ)
    → IsAscending xs
    → has_key j (remove_key k xs) ≡ (if j == k then false else has_key j xs)
unfolding remove_key
has_key-remove j k [] s = ground arith
has_key-remove j k (x ∷ xs) s = ground (arith, has_key-remove j k xs, has_key-above x xs)
