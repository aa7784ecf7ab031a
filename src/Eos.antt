-- ===== src/Eos.antt =====
-- The eOS kernel of MiniOS/eOS_student.
pub mod Bitmap
pub mod Node
pub mod Queue
pub mod Kernel
pub mod Sync
pub mod Message
pub mod Interrupt
pub mod Format
pub mod Context
