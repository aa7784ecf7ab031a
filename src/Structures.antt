-- ===== src/Structures.antt =====
-- The data structures of the folder data-structure.
pub mod Keys
pub mod Bst
pub mod RbTree
pub mod Deque
pub mod HashTable
pub mod BTree
pub mod Palindrome
