-- ===== src/Eos/Node.antt =====
-- The circular doubly linked lists of MiniOS/eOS_student/core/common.c, on an explicit heap of
-- nodes. A function that updates `*head` returns the new head beside the heap. The heap is total:
-- that a function follows only pointers of the ring is part of what is proved about it.
pub mod Ring
mod Insert
mod Unlink
pub mod Splice
pub mod Tail
pub mod Priority
pub mod Remove
mod Tests
use snu_projects.Base.{
  ℕ, zero, suc, Bool, true, false, ◌&&◌, ◌||◌, not, Option, none, some, ◌==◌, leb, ltb,
  if◌then◌else◌,
}

abbrev pub Ptr : Type 0
Ptr = ℕ

-- `NULL`
abbrev pub null : Ptr
null = 0

-- `_os_node_t`
pub record Node : Type 0 where
  pub previous : Ptr
  pub next : Ptr
  pub ptr_data : ℕ
  pub priority : ℕ

abbrev pub Heap : Type 0
Heap = Ptr → Node

-- `p->previous = q`
abbrev pub set_previous : Ptr → Ptr → Heap → Heap
set_previous p q h a = if a == p then record (h a) { previous = q } else h a

-- `p->next = q`
abbrev pub set_next : Ptr → Ptr → Heap → Heap
set_next p q h a = if a == p then record (h a) { next = q } else h a

-- The four assignments that link `new_node` in front of `node`.
pub link_before : (new_node node : Ptr) → Heap → Heap
link_before new_node node h =
    let h₁ = set_previous new_node (h node).previous h in
    let h₂ = set_next (h₁ new_node).previous new_node h₁ in
    let h₃ = set_next new_node node h₂ in set_previous (h₃ new_node).next new_node h₃

-- The assignments that make `new_node` a ring of its own.
pub link_alone : (new_node : Ptr) → Heap → Heap
link_alone new_node h = set_next new_node new_node (set_previous new_node new_node h)

-- `_os_add_node_tail`
pub add_node_tail : (head new_node : Ptr) → Heap → Ptr × Heap
unfolding link_before link_alone
add_node_tail head new_node h =
    if head == null then (new_node, link_alone new_node h) else (head, link_before new_node head h)

-- The `while` loop of `_os_add_node_priority`; `none` means that the fuel ran out.
pub find_node : ℕ → (head new_node node : Ptr) → Heap → Option Ptr
find_node zero head new_node node h = none
find_node (suc fuel) head new_node node h =
    let rest = find_node fuel head new_node (h node).next h in
    if leb (h node).priority (h new_node).priority && not (node == head) then rest else some node

link_found : (head new_node : Ptr) → Option Ptr → Heap → Option (Ptr × Heap)
link_found head new_node none h = none
link_found head new_node (some node) h = some (head, link_before new_node node h)

-- `_os_add_node_priority`, its loop on `fuel`
pub add_node_priority : ℕ → (head new_node : Ptr) → Heap → Option (Ptr × Heap)
unfolding link_before link_alone find_node link_found
add_node_priority fuel head new_node h =
    if head == null
    then some (new_node, link_alone new_node h)
    else if ltb (h new_node).priority (h head).priority
    then some (new_node, link_before new_node head h)
    else link_found head new_node (find_node fuel head new_node (h head).next h) h

-- The assignments that take `node` out of a ring of several nodes.
pub bypass : (node : Ptr) → Heap → Heap
bypass node h =
    let h₁ = set_next (h node).previous (h node).next h in
    set_previous (h₁ node).next (h₁ node).previous h₁

-- `node->next = NULL; node->previous = NULL;`
pub forget : (node : Ptr) → Heap → Heap
forget node h = set_previous node null (set_next node null h)

-- `_os_remove_node`: the new head, the heap, and whether there was such a node.
pub remove_node : (head node : Ptr) → Heap → Ptr × Heap × Bool
unfolding bypass forget
remove_node head node h =
    if (h node).next == null || (h node).previous == null
    then (head, h, false)
    else if (h node).next == node
    then (null, forget node h, true)
    else (
      if node == head then (bypass node h node).next else head,
      forget node (bypass node h),
      true,
    )
