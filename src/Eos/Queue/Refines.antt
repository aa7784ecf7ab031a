-- ===== src/Eos/Queue/Refines.antt =====
-- The pointer lists of core/common.c hold the sequences of `Eos.Queue`.
use snu_projects.Base.{
  ℕ, ◌≤◌, ◌≡◌, ◌≢◌, refl, sym, ap, ◌∙◌, true, false, arith, some, List, [], ◌∷◌, ◌++◌, map, length,
  ltb, Bool-cases, inl, inr,
}
use mathlib.Core.List.{map-append}
use snu_projects.Eos.Node.{Ptr, null, Heap, add_node_tail, add_node_priority, remove_node}
use snu_projects.Eos.Node.Ring.{has, IsRing}
use snu_projects.Eos.Node.Splice.{Spares}
use snu_projects.Eos.Node.Tail.{add_node_tail-append}
use snu_projects.Eos.Node.Priority.{insert_priority, add_node_priority-insert}
use snu_projects.Eos.Node.Remove.{remove_node-remove}
use snu_projects.Eos.Queue.{Entry, Queue, add_tail, add_priority, remove, carries}

abbrev pub entry : Heap → Ptr → Entry
entry h a = record { ptr_data = (h a).ptr_data; priority = (h a).priority }

-- The sequence that the nodes `xs` hold.
abbrev pub entries : Heap → List Ptr → Queue
entries h xs = map (entry h) xs

-- `head` heads a ring that holds the sequence `q`.
abbrev pub Holds : Heap → Ptr → Queue → Type 0
Holds h head q = (xs : List Ptr) × IsRing h head xs × (entries h xs ≡ q)

entries-Spares :
    {ys : List Ptr} {h g : Heap} (xs : List Ptr) → Spares ys h g → entries g xs ≡ entries h xs
entries-Spares [] s = refl
entries-Spares (x ∷ xs) s = ground (arith, s.payload x, entries-Spares xs s)

-- `_os_add_node_tail` puts the entry of a node that is not in the ring behind the sequence that
-- the ring holds.
pub add_node_tail_refines :
    (h : Heap) (head n : Ptr) (xs : List Ptr)
    → IsRing h head xs
    → null ≢ n
    → has n xs ≡ false
    → let (head', g) = add_node_tail head n h in Holds g head' (add_tail (entry h n) (entries h xs))
add_node_tail_refines h head n xs ring nn new =
    let (ring', spares) = add_node_tail-append h head n xs ring nn new in
    (
      xs ++ (n ∷ []),
      ring',
      entries-Spares (xs ++ (n ∷ [])) spares ∙ map-append (entry h) xs (n ∷ []),
    )

entries-insert :
    (h : Heap) (n : Ptr) (xs : List Ptr)
    → entries h (insert_priority h n xs) ≡ add_priority (entry h n) (entries h xs)
unfolding insert_priority add_priority
entries-insert h n [] = refl
entries-insert h n (x ∷ xs) = elim (Bool-cases (ltb (h n).priority (h x).priority)) [
  | inl e ↦ rw e refl
  | inr e ↦ rw e (ap (λ l. entry h x ∷ l) (entries-insert h n xs))
]

-- With at least as much fuel as the ring has nodes, `_os_add_node_priority` puts the entry of a
-- node that is not in the ring in its place in the sequence that the ring holds.
pub add_node_priority_refines :
    (fuel : ℕ) (h : Heap) (head n : Ptr) (xs : List Ptr)
    → IsRing h head xs
    → null ≢ n
    → has n xs ≡ false
    → length xs ≤ fuel
    → (r : Ptr × Heap) × (add_node_priority fuel head n h ≡ some r)
      × Holds r.1 r.0 (add_priority (entry h n) (entries h xs))
add_node_priority_refines fuel h head n xs ring nn new f =
    let (r, ran, ring', spares) = add_node_priority-insert fuel h head n xs ring nn new f in
    (
      r,
      ran,
      (
        insert_priority h n xs,
        ring',
        entries-Spares (insert_priority h n xs) spares ∙ entries-insert h n xs,
      ),
    )

remove-middle :
    (h : Heap) (c : Ptr) (ys zs : List Ptr)
    → carries (h c).ptr_data (entries h ys) ≡ false
    → remove (h c).ptr_data (entries h (ys ++ (c ∷ zs))) ≡ entries h (ys ++ zs)
unfolding remove
remove-middle h c [] zs o = ground arith
remove-middle h c (y ∷ ys) zs o = ground (arith, remove-middle h c ys zs (ground arith))

-- `_os_remove_node` takes the node's entry out of the sequence that the ring holds, where no node
-- in front of it carries the same data.
pub remove_node_refines :
    (h : Heap) (head c : Ptr) (ys zs : List Ptr)
    → IsRing h head (ys ++ (c ∷ zs))
    → carries (h c).ptr_data (entries h ys) ≡ false
    → let (head', g, found) = remove_node head c h in
      (found ≡ true) × Holds g head' (remove (h c).ptr_data (entries h (ys ++ (c ∷ zs))))
remove_node_refines h head c ys zs ring o =
    let (found, ring', _, _, spares) = remove_node-remove h head c ys zs ring in
    (found, (ys ++ zs, ring', entries-Spares (ys ++ zs) spares ∙ sym (remove-middle h c ys zs o)))
