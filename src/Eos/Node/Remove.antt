-- ===== src/Eos/Node/Remove.antt =====
-- `_os_remove_node` of core/common.c against sequences of nodes.
use snu_projects.Base.{
  ◌≡◌, ◌≢◌, refl, Bool, true, false, List, [], ◌∷◌, ◌++◌, arith, ◌==◌, ◌⊎◌, ==-self, if◌then◌else◌,
}
use mathlib.Core.List.{append-nil}
use snu_projects.Eos.Node.{Ptr, null, Heap, bypass, forget, remove_node}
use snu_projects.Eos.Node.Ring.{
  has, IsRing, first, has-append, previous-has, first-has, Links-split, Links-join, next-first,
  next-has,
}
use snu_projects.Eos.Node.Unlink.{Unlinked, bypass-Unlinked, unlink-Links}
use snu_projects.Eos.Node.Splice.{Spares, Distinct-insert, Distinct-remove}

module _ (h : Heap) (head c : Ptr) where
  -- `_os_remove_node` on a node of a ring of several.
  remove_node_several :
      (h c).next ≢ null
      → (h c).previous ≢ null
      → (h c).next ≢ c
      → (h c).previous ≢ c
      → remove_node head c h ≡ (if c == head then (h c).next else head, forget c (bypass c h), true)
  unfolding remove_node bypass
  remove_node_several nn pn nc pc = ground arith

  remove_node_alone :
      (h c).next ≡ c
      → (h c).previous ≡ c
      → c ≢ null
      → remove_node head c h ≡ (null, forget c h, true)
  unfolding remove_node
  remove_node_alone nc pc cn = ground arith

  -- `_os_remove_node` returns 0 and changes nothing when the node is in no list.
  pub remove_node-absent :
      ((h c).next ≡ null) ⊎ ((h c).previous ≡ null) → remove_node head c h ≡ (head, h, false)
  unfolding remove_node
  remove_node-absent absent = ground arith

forget-Spares : (h : Heap) (c : Ptr) → Spares (c ∷ []) h (forget c h)
unfolding forget
forget-Spares h c = record { outside = λ a o. ground arith; payload = λ a. ground arith }

-- Turning a ring round so that its head becomes the last node.
unrotate-IsRing :
    (h : Heap) (c z : Ptr) (zs : List Ptr)
    → IsRing h c (c ∷ (z ∷ zs))
    → IsRing h z (z ∷ (zs ++ (c ∷ [])))
unrotate-IsRing h c z zs ring = (
  refl,
  ground (arith, has-append null zs (c ∷ [])),
  Distinct-insert c (z ∷ zs) [] (rw (append-nil zs) ring.2.1) (rw (append-nil zs) ring.2.0),
  Links-join h z zs c [] z ring.3.2 (ring.3.0, ring.3.1),
)

-- In a ring with head `y` and a node `c` elsewhere.
module _ (h : Heap) (y c : Ptr) (ys zs : List Ptr) (ring : IsRing h y (y ∷ (ys ++ (c ∷ zs)))) where
  previous-mem : has (h c).previous (y ∷ ys) ≡ true
  previous-mem = previous-has h y ys (c ∷ zs) y ring.3

  next-eq : (h c).next ≡ first zs y
  next-eq = next-first h c zs y (Links-split h y ys c zs y ring.3).1

  next-mem : (has (h c).next (ys ++ (c ∷ zs)) ≡ true) ⊎ ((h c).next ≡ y)
  next-mem = next-has h y ys c zs y ring.3

  outside_parts : (has c (ys ++ zs) ≡ false) × ((c == y) ≡ false)
  outside_parts = ((Distinct-remove c ys zs ring.2.1).1, ground (arith, has-append y ys (c ∷ zs)))

  next-ne_null : (h c).next ≢ null
  next-ne_null = ground (arith, next-mem)

  previous-ne_null : (h c).previous ≢ null
  previous-ne_null = ground (arith, previous-mem, has-append null ys (c ∷ zs))

  next-ne : (h c).next ≢ c
  next-ne = ground (arith, next-eq, outside_parts, first-has zs y ys)

  previous-ne : (h c).previous ≢ c
  previous-ne = ground (arith, previous-mem, outside_parts, has-append c ys zs)

  unlinked : Unlinked h (forget c (bypass c h)) (h c).previous c (h c).next
  unlinked = bypass-Unlinked h c (ground (arith, previous-ne)) (ground (arith, next-ne))

  removed-IsRing : IsRing (forget c (bypass c h)) y (y ∷ (ys ++ zs))
  removed-IsRing = (
    refl,
    ground (arith, has-append null ys (c ∷ zs), has-append null ys zs),
    (Distinct-remove c (y ∷ ys) zs ring.2).0,
    unlink-Links unlinked y ys zs y ring.3 ring.2 ring.2.0 refl refl,
  )

  removed-Spares : Spares (y ∷ (ys ++ (c ∷ zs))) h (forget c (bypass c h))
  unfolding bypass forget
  removed-Spares = record {
    outside = λ a o. ground (arith, previous-mem, next-mem, has-append a ys (c ∷ zs));
    payload = Unlinked.payload unlinked;
  }

cleared_next : (h : Heap) (c : Ptr) → (forget c h c).next ≡ null
unfolding forget
cleared_next h c = ground arith

cleared_previous : (h : Heap) (c : Ptr) → (forget c h c).previous ≡ null
unfolding forget
cleared_previous h c = ground arith

Spares-mono :
    {xs ys : List Ptr} {h g : Heap}
    → Spares xs h g
    → ((a : Ptr) → has a ys ≡ false → has a xs ≡ false)
    → Spares ys h g
Spares-mono s sub = record { outside = λ a o. s.outside a (sub a o); payload = s.payload }

-- What `_os_remove_node` promises for a node that stands between `ys` and `zs`.
abbrev pub Removed : Heap → Ptr → List Ptr → List Ptr → Ptr × Heap × Bool → Type 0
Removed h c ys zs (head, g, found) =
    (found ≡ true)
    × IsRing g head (ys ++ zs)
    × ((g c).next ≡ null)
    × ((g c).previous ≡ null)
    × Spares (ys ++ (c ∷ zs)) h g

-- `_os_remove_node` takes a node out of its ring, says so, clears the node's pointers, keeps every
-- node's priority and task, and writes to no node outside the ring.
pub remove_node-remove :
    (h : Heap) (head c : Ptr) (ys zs : List Ptr)
    → IsRing h head (ys ++ (c ∷ zs))
    → Removed h c ys zs (remove_node head c h)
remove_node-remove h head c [] [] ring =
    rw (remove_node_alone h head c ring.3.0 ring.3.1 (ground arith))
      (refl, refl, cleared_next h c, cleared_previous h c, forget-Spares h c)
remove_node-remove h head c [] (z ∷ zs) ring =
    rw
      (
        ring.0,
        remove_node_several h c c (next-ne_null h z c zs [] turned)
            (previous-ne_null h z c zs [] turned) (next-ne h z c zs [] turned)
            (previous-ne h z c zs [] turned),
        ==-self,
        ring.3.0,
      )
      (
        refl,
        rw (append-nil zs) at (removed-IsRing h z c zs [] turned),
        cleared_next (bypass c h) c,
        cleared_previous (bypass c h) c,
        Spares-mono (removed-Spares h z c zs [] turned)
            (λ a o. ground (arith, has-append a zs (c ∷ []))),
      )
  where
    turned : IsRing h z (z ∷ (zs ++ (c ∷ [])))
    turned = unrotate-IsRing h c z zs (refl, ring.1, ring.2, ring.3)
remove_node-remove h head c (y ∷ ys) zs ring =
    rw
      (
        ring.0,
        remove_node_several h y c (next-ne_null h y c ys zs same)
            (previous-ne_null h y c ys zs same) (next-ne h y c ys zs same)
            (previous-ne h y c ys zs same),
        (outside_parts h y c ys zs same).1,
      )
      (
        refl,
        removed-IsRing h y c ys zs same,
        cleared_next (bypass c h) c,
        cleared_previous (bypass c h) c,
        removed-Spares h y c ys zs same,
      )
  where
    same : IsRing h y (y ∷ (ys ++ (c ∷ zs)))
    same = (refl, ring.1, ring.2, ring.3)
