-- ===== src/Eos/Node/Priority.antt =====
-- `_os_add_node_priority` of core/common.c against sorted sequences of nodes.
use snu_projects.Base.{
  ap, ℕ, zero, suc, ◌<◌, ◌≤◌, ◌≡◌, ◌≢◌, refl, false, List, [], ◌∷◌, ◌++◌, some, arith, inl, inr,
  Bool-cases, if◌then◌else◌, length, ltb,
}
use mathlib.Core.List.{append-nil}
use snu_projects.Eos.Node.{Ptr, null, Heap, link_before, link_alone, find_node, add_node_priority}
use snu_projects.Eos.Node.Ring.{has, Links, IsRing, first}
use snu_projects.Eos.Node.Splice.{
  Spares, inserted-IsRing, inserted-Spares, rotate-IsRing, alone-IsRing, alone-Spares, not_null,
  padded, pad-has,
}

-- A node with its priority, put in front of the first one whose priority is greater.
unfoldable pub insert_priority : Heap → Ptr → List Ptr → List Ptr
insert_priority h n [] = n ∷ []
insert_priority h n (x ∷ xs) =
    if ltb (h n).priority (h x).priority then n ∷ (x ∷ xs) else x ∷ insert_priority h n xs

-- Every priority in the list is at least `k`.
abbrev pub AllAtLeast : Heap → ℕ → List Ptr → Type 0
AllAtLeast h k [] = Unit {0}
AllAtLeast h k (x ∷ xs) = (k ≤ (h x).priority) × AllAtLeast h k xs

-- Priorities do not fall along the list.
abbrev pub IsSorted : Heap → List Ptr → Type 0
IsSorted h [] = Unit {0}
IsSorted h (x ∷ xs) = AllAtLeast h (h x).priority xs × IsSorted h xs

AllAtLeast-mono :
    (h : Heap) (j k : ℕ) (xs : List Ptr) → j ≤ k → AllAtLeast h k xs → AllAtLeast h j xs
AllAtLeast-mono h j k [] le all = tt
AllAtLeast-mono h j k (x ∷ xs) le all = (omega arith, AllAtLeast-mono h j k xs le all.1)

AllAtLeast-insert :
    (h : Heap) (k : ℕ) (n : Ptr) (xs : List Ptr)
    → k ≤ (h n).priority
    → AllAtLeast h k xs
    → AllAtLeast h k (insert_priority h n xs)
unfolding insert_priority
AllAtLeast-insert h k n [] le all = (le, tt)
AllAtLeast-insert h k n (x ∷ xs) le all = elim (Bool-cases (ltb (h n).priority (h x).priority)) [
  | inl e ↦ rw e (le, all)
  | inr e ↦ rw e (all.0, AllAtLeast-insert h k n xs le all.1)
]

-- A sorted wait queue or alarm queue stays sorted by priority when a node is put in its place.
pub insert_priority-IsSorted :
    (h : Heap) (n : Ptr) (xs : List Ptr) → IsSorted h xs → IsSorted h (insert_priority h n xs)
unfolding insert_priority
insert_priority-IsSorted h n [] s = (tt, tt)
insert_priority-IsSorted h n (x ∷ xs) s = elim (Bool-cases (ltb (h n).priority (h x).priority)) [
  | inl e ↦ rw e ((ground arith, AllAtLeast-mono h _ _ xs (ground arith) s.0), s)
  | inr e ↦ rw e (
    AllAtLeast-insert h (h x).priority n xs (ground arith) s.0,
    insert_priority-IsSorted h n xs s.1,
  )
]

-- The nodes that the loop of `_os_add_node_priority` passes, and those that it leaves.
passed : Heap → Ptr → List Ptr → List Ptr
passed h n [] = []
passed h n (x ∷ xs) = if ltb (h n).priority (h x).priority then [] else x ∷ passed h n xs

left : Heap → Ptr → List Ptr → List Ptr
left h n [] = []
left h n (x ∷ xs) = if ltb (h n).priority (h x).priority then x ∷ xs else left h n xs

passed-left : (h : Heap) (n : Ptr) (xs : List Ptr) → passed h n xs ++ left h n xs ≡ xs
unfolding passed left
passed-left h n [] = refl
passed-left h n (x ∷ xs) = elim (Bool-cases (ltb (h n).priority (h x).priority)) [
  | inl e ↦ rw e refl
  | inr e ↦ rw e (ap (λ l. x ∷ l) (passed-left h n xs))
]

insert_priority_lem :
    (h : Heap) (n : Ptr) (xs : List Ptr)
    → insert_priority h n xs ≡ passed h n xs ++ (n ∷ left h n xs)
unfolding passed left insert_priority
insert_priority_lem h n [] = refl
insert_priority_lem h n (x ∷ xs) = elim (Bool-cases (ltb (h n).priority (h x).priority)) [
  | inl e ↦ rw e refl
  | inr e ↦ rw e (ap (λ l. x ∷ l) (insert_priority_lem h n xs))
]

-- The loop stops at the first of the nodes that are left, or at the head.
find_node-left :
    (fuel : ℕ) (h : Heap) (x n a : Ptr) (xs : List Ptr)
    → Links h a xs x
    → has x xs ≡ false
    → length xs < fuel
    → find_node fuel x n (h a).next h ≡ some (first (left h n xs) x)
unfolding find_node left
find_node-left zero h x n a xs l o f = absurd (omega arith)
find_node-left (suc fuel) h x n a [] l o f = ground arith
find_node-left (suc fuel) h x n a (y ∷ xs) l o f =
    rw l.0 (elim (Bool-cases (ltb (h n).priority (h y).priority)) [
      | inl e ↦ ground arith
      | inr e ↦ ground (arith, find_node-left fuel h x n y xs l.2 (ground arith) (omega arith))
    ])

-- With at least as much fuel as the ring has nodes, `_os_add_node_priority` of a node that is not
-- in the ring finds its place: the node stands in front of the first one of greater priority, at
-- the end if there is none. It keeps every node's priority and task, and writes to no node outside
-- the ring.
pub add_node_priority-insert :
    (fuel : ℕ) (h : Heap) (head n : Ptr) (xs : List Ptr)
    → IsRing h head xs
    → null ≢ n
    → has n xs ≡ false
    → length xs ≤ fuel
    → (r : Ptr × Heap) × (add_node_priority fuel head n h ≡ some r)
      × IsRing r.1 r.0 (insert_priority h n xs)
      × Spares (n ∷ xs) h r.1
unfolding add_node_priority insert_priority
add_node_priority-insert fuel h head n [] ring nn new f =
    ((n, link_alone n h), rw ring refl, alone-IsRing h n nn, alone-Spares h n)
add_node_priority-insert fuel h head n (x ∷ xs) ring nn new f =
    rw (ring.0, not_null h x xs ring)
      (elim (Bool-cases (ltb (h n).priority (h x).priority)) [
        | inl e ↦ rw e (
          (n, link_before n x h),
          refl,
          rotate-IsRing (link_before n x h) n x xs
              (inserted-IsRing h n x xs [] nn (padded h x xs ring) (pad-has n x xs new)),
          rw (append-nil xs) at
              (inserted-Spares h n x xs [] nn (padded h x xs ring) (pad-has n x xs new)),
        )
        | inr e ↦ rw e (
          (x, link_before n (first zs x) h),
          rw (find_node-left fuel h x n x xs ring.3 ring.2.0 f) refl,
          rw (insert_priority_lem h n xs) (inserted-IsRing h n x ys zs nn ring' new'),
          rw (passed-left h n xs) at (inserted-Spares h n x ys zs nn ring' new'),
        )
      ])
  where
    ys : List Ptr
    ys = passed h n xs

    zs : List Ptr
    zs = left h n xs

    at : Ptr
    at = first zs x

    ring' : IsRing h x (x ∷ (ys ++ zs))
    ring' = rw (passed-left h n xs) (refl, ring.1, ring.2, ring.3)

    new' : has n (x ∷ (ys ++ zs)) ≡ false
    new' = rw (passed-left h n xs) new
