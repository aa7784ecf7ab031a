-- ===== src/Eos/Queue.antt =====
-- The lists of core/common.c as sequences: a node is its priority and its `ptr_data`. The modules
-- above the lists use these; `Eos.Node` proves that the pointer code keeps a ring of such nodes.
pub mod Refines
use snu_projects.Base.{
  ℕ, List, [], ◌∷◌, ◌++◌, map, ◌==◌, ltb, if◌then◌else◌, Bool, true, false, ◌||◌,
}

-- What a `_os_node_t` carries.
pub record Entry : Type 0 where
  pub ptr_data : ℕ
  pub priority : ℕ

abbrev pub Queue : Type 0
Queue = List Entry

-- `_os_add_node_tail`
abbrev pub add_tail : Entry → Queue → Queue
add_tail e q = q ++ (e ∷ [])

-- `_os_add_node_priority`
unfoldable pub add_priority : Entry → Queue → Queue
add_priority e [] = e ∷ []
add_priority e (x ∷ q) = if ltb e.priority x.priority then e ∷ (x ∷ q) else x ∷ add_priority e q

-- `_os_remove_node` on the node that carries `ptr_data`, if the queue has one.
unfoldable pub remove : ℕ → Queue → Queue
remove p [] = []
remove p (x ∷ q) = if x.ptr_data == p then q else x ∷ remove p q

-- Does a node carry `ptr_data`?
abbrev pub carries : ℕ → Queue → Bool
carries p [] = false
carries p (x ∷ q) = (x.ptr_data == p) || carries p q
