-- ===== src/Debugger.antt =====
-- The debugger: snudebugger/snudbg.
pub mod Breakpoint
pub mod Maps
pub mod Write
pub mod ByteMemory
