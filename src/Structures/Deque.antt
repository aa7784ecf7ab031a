-- ===== src/Structures/Deque.antt =====
-- The deques of data-structure/01-deque/include/deque.hpp, with numbers as elements.
pub mod Array
mod Tests
