-- ===== src/Eos/Node/Tests.antt =====
-- Runs of the list functions on a heap with a ring of the nodes 1 and 2, and a free node 3.
use snu_projects.Base.{◌≡◌, refl, List, [], ◌∷◌, some, arith, ◌==◌, if◌then◌else◌}
use snu_projects.Eos.Node.{Ptr, Heap, add_node_priority, remove_node}
use snu_projects.Eos.Node.Ring.{IsRing}
use snu_projects.Eos.Node.Splice.{Spares}
use snu_projects.Eos.Node.Priority.{insert_priority, add_node_priority-insert}
use snu_projects.Eos.Node.Remove.{Removed, remove_node-remove}

abbrev two_nodes : Heap
two_nodes a =
    if a == 1
    then record { previous = 2; next = 2; ptr_data = 10; priority = 5 }
    else if a == 2
    then record { previous = 1; next = 1; ptr_data = 20; priority = 9 }
    else record { previous = 0; next = 0; ptr_data = 30; priority = 7 }

abbrev one_two : List Ptr
one_two = 1 ∷ 2 ∷ []

two_nodes-IsRing : IsRing two_nodes 1 one_two
two_nodes-IsRing = (refl, refl, (refl, (refl, tt)), (refl, refl, (refl, refl)))

add_node_priority-insert_example :
    (r : Ptr × Heap) × (add_node_priority 2 1 3 two_nodes ≡ some r)
    × IsRing r.1 r.0 (insert_priority two_nodes 3 one_two)
    × Spares (3 ∷ one_two) two_nodes r.1
add_node_priority-insert_example =
    add_node_priority-insert 2 two_nodes 1 3 one_two two_nodes-IsRing (λ e. cc) refl (omega arith)

remove_node-remove_example : Removed two_nodes 1 [] (2 ∷ []) (remove_node 1 1 two_nodes)
remove_node-remove_example = remove_node-remove two_nodes 1 1 [] (2 ∷ []) two_nodes-IsRing
