-- ===== src/Structures/Keys/Between.antt =====
-- Insertion and removal in a part of an ascending list whose other keys lie on either side, as the
-- nodes of data-structure/04-btree/include/btree.hpp cut it.
use snu_projects.Base.{ℕ, ◌≡◌, refl, ap, ◌∙◌, true, List, [], ◌∷◌, ◌++◌, arith}
use snu_projects.Structures.Keys.{
  insert_key, remove_key, has_key, AllBelow, AllAbove, IsAscending, has_key-above,
}

insert_key-after :
    (t : ℕ) (xs ys : List ℕ) → AllBelow t xs → insert_key t (xs ++ ys) ≡ xs ++ insert_key t ys
unfolding insert_key
insert_key-after t [] ys b = refl
insert_key-after t (x ∷ xs) ys b = ground (arith, insert_key-after t xs ys)

insert_key-before :
    (t : ℕ) (xs ys : List ℕ) → AllAbove t ys → insert_key t (xs ++ ys) ≡ insert_key t xs ++ ys
unfolding insert_key
insert_key-before t [] [] a = refl
insert_key-before t [] (y ∷ ys) a = ground arith
insert_key-before t (x ∷ xs) ys a = ground (arith, insert_key-before t xs ys a)

pub insert_key-between :
    (t : ℕ) (xs ys zs : List ℕ)
    → AllBelow t xs
    → AllAbove t zs
    → insert_key t (xs ++ (ys ++ zs)) ≡ xs ++ (insert_key t ys ++ zs)
insert_key-between t xs ys zs b a =
    insert_key-after t xs (ys ++ zs) b ∙ ap (λ l. xs ++ l) (insert_key-before t ys zs a)

remove_key-after :
    (t : ℕ) (xs ys : List ℕ) → AllBelow t xs → remove_key t (xs ++ ys) ≡ xs ++ remove_key t ys
unfolding remove_key
remove_key-after t [] ys b = refl
remove_key-after t (x ∷ xs) ys b = ground (arith, remove_key-after t xs ys)

remove_key-outside : (t : ℕ) (xs : List ℕ) → AllAbove t xs → remove_key t xs ≡ xs
unfolding remove_key
remove_key-outside t [] a = refl
remove_key-outside t (x ∷ xs) a = ground (arith, remove_key-outside t xs)

remove_key-before :
    (t : ℕ) (xs ys : List ℕ) → AllAbove t ys → remove_key t (xs ++ ys) ≡ remove_key t xs ++ ys
unfolding remove_key
remove_key-before t [] ys a = remove_key-outside t ys a
remove_key-before t (x ∷ xs) ys a = ground (arith, remove_key-before t xs ys a)

pub remove_key-between :
    (t : ℕ) (xs ys zs : List ℕ)
    → AllBelow t xs
    → AllAbove t zs
    → remove_key t (xs ++ (ys ++ zs)) ≡ xs ++ (remove_key t ys ++ zs)
remove_key-between t xs ys zs b a =
    remove_key-after t xs (ys ++ zs) b ∙ ap (λ l. xs ++ l) (remove_key-before t ys zs a)

has_key-after : (t : ℕ) (xs ys : List ℕ) → AllBelow t xs → has_key t (xs ++ ys) ≡ has_key t ys
has_key-after t [] ys b = refl
has_key-after t (x ∷ xs) ys b = ground (arith, has_key-after t xs ys)

has_key-before : (t : ℕ) (xs ys : List ℕ) → AllAbove t ys → has_key t (xs ++ ys) ≡ has_key t xs
has_key-before t [] ys a = has_key-above t ys a
has_key-before t (x ∷ xs) ys a = ground (arith, has_key-before t xs ys a)

pub has_key-between :
    (t : ℕ) (xs ys zs : List ℕ)
    → AllBelow t xs
    → AllAbove t zs
    → has_key t (xs ++ (ys ++ zs)) ≡ has_key t ys
has_key-between t xs ys zs b a = has_key-after t xs (ys ++ zs) b ∙ has_key-before t ys zs a

-- Either end of an ascending list is ascending.
pub IsAscending-append : (xs ys : List ℕ) → IsAscending (xs ++ ys) → IsAscending xs × IsAscending ys
IsAscending-append [] ys h = (tt, h)
IsAscending-append (x ∷ xs) ys h =
    let (front, back) = IsAscending-append xs ys h.1 in ((AllAbove-front x xs ys h.0, front), back)
  where
    AllAbove-front : (b : ℕ) (us vs : List ℕ) → AllAbove b (us ++ vs) → AllAbove b us
    AllAbove-front b [] vs h = tt
    AllAbove-front b (u ∷ us) vs h = (h.0, AllAbove-front b us vs h.1)

pub IsAscending-between : (xs ys zs : List ℕ) → IsAscending (xs ++ (ys ++ zs)) → IsAscending ys
IsAscending-between xs ys zs h = (IsAscending-append ys zs (IsAscending-append xs (ys ++ zs) h).1).0

has_key-front : (x : ℕ) (ys zs : List ℕ) → has_key x ys ≡ true → has_key x (ys ++ zs) ≡ true
has_key-front x [] zs h = ground arith
has_key-front x (y ∷ ys) zs h = ground (arith, has_key-front x ys zs)

pub has_key-part :
    (x : ℕ) (xs ys zs : List ℕ) → has_key x ys ≡ true → has_key x (xs ++ (ys ++ zs)) ≡ true
has_key-part x [] ys zs h = has_key-front x ys zs h
has_key-part x (y ∷ xs) ys zs h = ground (arith, has_key-part x xs ys zs h)
