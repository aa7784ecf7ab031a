-- ===== src/Eos/Node/Splice.antt =====
-- Rings after one node has been linked in, and what such writes leave alone.
use snu_projects.Base.{◌≡◌, ◌≢◌, refl, true, false, List, [], ◌∷◌, ◌++◌, arith, ◌==◌}
use mathlib.Core.List.{append-nil}
use snu_projects.Eos.Node.{Ptr, null, Heap, link_before, link_alone}
use snu_projects.Eos.Node.Ring.{
  has, Distinct, Links, IsRing, first, has-append, previous-has, first-has, Links-split,
}
use snu_projects.Eos.Node.Insert.{Inserted, link_before-Inserted, insert-Links}

-- Nodes outside `xs` are as they were, and every node keeps its priority and its task.
pub record Spares (xs : List Ptr) (h g : Heap) : Type 0 where
  pub outside : (a : Ptr) → has a xs ≡ false → g a ≡ h a
  pub payload : (a : Ptr) → ((g a).priority ≡ (h a).priority) × ((g a).ptr_data ≡ (h a).ptr_data)

-- The ring of `ys ++ zs` with `n` between its parts.
pub Distinct-insert :
    (n : Ptr) (ys zs : List Ptr)
    → Distinct (ys ++ zs)
    → has n (ys ++ zs) ≡ false
    → Distinct (ys ++ (n ∷ zs))
Distinct-insert n [] zs d o = (o, d)
Distinct-insert n (y ∷ ys) zs d o = (
  ground (arith, has-append y ys (n ∷ zs), has-append y ys zs),
  Distinct-insert n ys zs d.1 (ground arith),
)

pub Distinct-remove :
    (c : Ptr) (ys zs : List Ptr)
    → Distinct (ys ++ (c ∷ zs))
    → Distinct (ys ++ zs) × (has c (ys ++ zs) ≡ false)
Distinct-remove c [] zs d = (d.1, d.0)
Distinct-remove c (y ∷ ys) zs d =
    let (e, o) = Distinct-remove c ys zs d.1 in
    (
      (ground (arith, has-append y ys (c ∷ zs), has-append y ys zs), e),
      ground (arith, o, has-append y ys (c ∷ zs)),
    )

-- In a ring, `n` is linked in front of the first of `zs`, or of the head behind them.
module _ (h : Heap) (n x : Ptr) (ys zs : List Ptr) (nn : null ≢ n)
    (ring : IsRing h x (x ∷ (ys ++ zs))) (new : has n (x ∷ (ys ++ zs)) ≡ false) where
  at-has : has (first zs x) (x ∷ (ys ++ zs)) ≡ true
  at-has = ground (arith, first-has zs x ys)

  before-has : has (h (first zs x)).previous (x ∷ (ys ++ zs)) ≡ true
  before-has =
      ground (arith, previous-has h x ys zs x ring.3, has-append (h (first zs x)).previous ys zs)

  inserted : Inserted h (link_before n (first zs x) h) n (h (first zs x)).previous (first zs x)
  inserted =
      link_before-Inserted h n (first zs x) (ground (arith, at-has)) (ground (arith, before-has))

  inserted-Links : Links (link_before n (first zs x) h) x (ys ++ (n ∷ zs)) x
  inserted-Links =
      insert-Links inserted x ys zs x ring.3 ring.2 ring.2.0 new (ground arith) refl refl

  inserted-Distinct : Distinct (x ∷ (ys ++ (n ∷ zs)))
  inserted-Distinct = Distinct-insert n (x ∷ ys) zs ring.2 new

  pub inserted-IsRing : IsRing (link_before n (first zs x) h) x (x ∷ (ys ++ (n ∷ zs)))
  inserted-IsRing = (
    refl,
    ground (arith, has-append null ys (n ∷ zs), has-append null ys zs),
    inserted-Distinct,
    inserted-Links,
  )

  pub inserted-Spares : Spares (n ∷ x ∷ (ys ++ zs)) h (link_before n (first zs x) h)
  unfolding link_before
  inserted-Spares = record {
    outside = λ a o. ground (arith, at-has, before-has);
    payload = Inserted.payload inserted;
  }

-- Turning a ring round by one node.
pub rotate-IsRing :
    (h : Heap) (n x : Ptr) (xs : List Ptr)
    → IsRing h x (x ∷ (xs ++ (n ∷ [])))
    → IsRing h n (n ∷ (x ∷ xs))
rotate-IsRing h n x xs ring = (
  refl,
  ground (arith, has-append null xs (n ∷ [])),
  (ground (arith, out.1, append-nil xs), rw (append-nil xs) at (out.0)),
  ground (arith, Links-split h x xs n [] x ring.3),
)
  where
    out : Distinct ((x ∷ xs) ++ []) × (has n ((x ∷ xs) ++ []) ≡ false)
    out = Distinct-remove n (x ∷ xs) [] ring.2

pub alone-IsRing : (h : Heap) (n : Ptr) → null ≢ n → IsRing (link_alone n h) n (n ∷ [])
unfolding link_alone
alone-IsRing h n nn = (refl, ground arith, (refl, tt), ground arith)

pub alone-Spares : (h : Heap) (n : Ptr) → Spares (n ∷ []) h (link_alone n h)
unfolding link_alone
alone-Spares h n = record { outside = λ a o. ground arith; payload = λ a. ground arith }

pub not_null :
    (h : Heap) {head : Ptr} (x : Ptr) (xs : List Ptr) → IsRing h head (x ∷ xs) → (x == null) ≡ false
not_null h x xs ring = ground arith

pub padded :
    (h : Heap) {head : Ptr} (x : Ptr) (xs : List Ptr)
    → IsRing h head (x ∷ xs)
    → IsRing h x (x ∷ (xs ++ []))
padded h x xs ring = rw (append-nil xs) (refl, ring.1, ring.2, ring.3)

pub pad-has : (n x : Ptr) (xs : List Ptr) → has n (x ∷ xs) ≡ false → has n (x ∷ (xs ++ [])) ≡ false
pad-has n x xs new = rw (append-nil xs) new
