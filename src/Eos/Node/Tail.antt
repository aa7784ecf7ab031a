-- ===== src/Eos/Node/Tail.antt =====
-- `_os_add_node_tail` of core/common.c against sequences of nodes.
use snu_projects.Base.{◌≡◌, ◌≢◌, false, List, [], ◌∷◌, ◌++◌}
use mathlib.Core.List.{append-nil}
use snu_projects.Eos.Node.{Ptr, null, Heap, add_node_tail}
use snu_projects.Eos.Node.Ring.{has, IsRing}
use snu_projects.Eos.Node.Splice.{
  Spares, inserted-IsRing, inserted-Spares, alone-IsRing, alone-Spares, not_null, padded, pad-has,
}

-- `_os_add_node_tail` appends a node that is not in the ring, keeps every node's priority and
-- task, and writes to no node outside the ring.
pub add_node_tail-append :
    (h : Heap) (head n : Ptr) (xs : List Ptr)
    → IsRing h head xs
    → null ≢ n
    → has n xs ≡ false
    → let (head', g) = add_node_tail head n h in
      IsRing g head' (xs ++ (n ∷ [])) × Spares (n ∷ xs) h g
unfolding add_node_tail
add_node_tail-append h head n [] ring nn new = rw ring (alone-IsRing h n nn, alone-Spares h n)
add_node_tail-append h head n (x ∷ xs) ring nn new =
    rw (ring.0, not_null h x xs ring)
      (
        inserted-IsRing h n x xs [] nn (padded h x xs ring) (pad-has n x xs new),
        rw (append-nil xs) at
            (inserted-Spares h n x xs [] nn (padded h x xs ring) (pad-has n x xs new)),
      )
