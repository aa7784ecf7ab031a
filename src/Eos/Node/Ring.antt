-- ===== src/Eos/Node/Ring.antt =====
-- What a head pointer of core/common.c stands for: the nodes of its ring, in order.
use snu_projects.Base.{
  ◌≡◌, refl, Bool, true, false, ◌||◌, List, [], ◌∷◌, ◌++◌, arith, ◌==◌, ◌⊎◌, inl, inr,
}
use snu_projects.Eos.Node.{Ptr, null, Heap}

-- Is address `a` in the list?
abbrev pub has : Ptr → List Ptr → Bool
has a [] = false
has a (x ∷ xs) = (a == x) || has a xs

-- No address twice.
abbrev pub Distinct : List Ptr → Type 0
Distinct [] = Unit {0}
Distinct (x ∷ xs) = (has x xs ≡ false) × Distinct xs

-- From `a` the `next` pointers lead through `xs` to `b`, and the `previous` pointers back.
abbrev pub Links : Heap → Ptr → List Ptr → Ptr → Type 0
Links h a [] b = ((h a).next ≡ b) × ((h b).previous ≡ a)
Links h a (x ∷ xs) b = ((h a).next ≡ x) × ((h x).previous ≡ a) × Links h x xs b

-- `head` heads the ring of exactly the distinct nodes `xs`.
abbrev pub IsRing : Heap → Ptr → List Ptr → Type 0
IsRing h head [] = head ≡ null
IsRing h head (x ∷ xs) =
    (head ≡ x) × (has null (x ∷ xs) ≡ false) × Distinct (x ∷ xs) × Links h x xs x

-- The first of `xs`, or `b` behind them.
abbrev pub first : List Ptr → Ptr → Ptr
first [] b = b
first (x ∷ xs) b = x

pub has-append : (a : Ptr) (xs ys : List Ptr) → has a (xs ++ ys) ≡ (has a xs || has a ys)
has-append a [] ys = refl
has-append a (x ∷ xs) ys = ground (arith, has-append a xs ys)

-- Links survive changes that spare the pointers they follow.
pub Links-frame :
    (h g : Heap) (a : Ptr) (xs : List Ptr) (b : Ptr)
    → Links h a xs b
    → ((c : Ptr) → has c (a ∷ xs) ≡ true → (g c).next ≡ (h c).next)
    → ((c : Ptr) → ((c == b) || has c xs) ≡ true → (g c).previous ≡ (h c).previous)
    → Links g a xs b
Links-frame h g a [] b l nexts prevs = (ground (arith, nexts a), ground (arith, prevs b))
Links-frame h g a (x ∷ xs) b l nexts prevs = (
  ground (arith, nexts a),
  ground (arith, prevs x),
  Links-frame h g x xs b l.2 (λ c i. nexts c (ground arith)) (λ c i. prevs c (ground arith)),
)

-- Links through `xs ++ c ∷ ys` are links to `c` and links from there.
pub Links-split :
    (h : Heap) (a : Ptr) (xs : List Ptr) (c : Ptr) (ys : List Ptr) (b : Ptr)
    → Links h a (xs ++ (c ∷ ys)) b
    → Links h a xs c × Links h c ys b
Links-split h a [] c ys b l = ((l.0, l.1), l.2)
Links-split h a (x ∷ xs) c ys b l =
    let (front, back) = Links-split h x xs c ys b l.2 in ((l.0, l.1, front), back)

pub Links-join :
    (h : Heap) (a : Ptr) (xs : List Ptr) (c : Ptr) (ys : List Ptr) (b : Ptr)
    → Links h a xs c
    → Links h c ys b
    → Links h a (xs ++ (c ∷ ys)) b
Links-join h a [] c ys b l m = (l.0, l.1, m)
Links-join h a (x ∷ xs) c ys b l m = (l.0, l.1, Links-join h x xs c ys b l.2 m)

-- The node before the one behind `ys` is the last of `a ∷ ys`.
pub previous-has :
    (h : Heap) (a : Ptr) (ys zs : List Ptr) (b : Ptr)
    → Links h a (ys ++ zs) b
    → has (h (first zs b)).previous (a ∷ ys) ≡ true
previous-has h a [] [] b l = ground arith
previous-has h a [] (z ∷ zs) b l = ground arith
previous-has h a (y ∷ ys) zs b l = ground (arith, previous-has h y ys zs b l.2)

-- The first of `xs` is one of them, unless there is none.
pub first-has :
    (xs : List Ptr) (b : Ptr) (ys : List Ptr)
    → (has (first xs b) (ys ++ xs) ≡ true) ⊎ (first xs b ≡ b)
first-has [] b ys = inr refl
first-has (x ∷ xs) b ys = inl (ground (arith, has-append x ys (x ∷ xs)))

pub next-first :
    (h : Heap) (a : Ptr) (xs : List Ptr) (b : Ptr) → Links h a xs b → (h a).next ≡ first xs b
next-first h a [] b l = l.0
next-first h a (x ∷ xs) b l = l.0

-- The node after one of the linked nodes is linked too, or the end.
pub next-has :
    (h : Heap) (a : Ptr) (ys : List Ptr) (c : Ptr) (zs : List Ptr) (b : Ptr)
    → Links h a (ys ++ (c ∷ zs)) b
    → (has (h c).next (ys ++ (c ∷ zs)) ≡ true) ⊎ ((h c).next ≡ b)
next-has h a [] c zs b l = ground (arith, first-has zs b [], next-first h c zs b l.2)
next-has h a (y ∷ ys) c zs b l = ground (arith, next-has h y ys c zs b l.2)
