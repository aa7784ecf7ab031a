-- ===== src/Shell.antt =====
-- The tiny shell: shlab/shlab/tsh.c.
pub mod Jobs
pub mod Parse
pub mod Command
