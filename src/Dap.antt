-- ===== src/Dap.antt =====
-- dap/: the debug adapter's own state around the core.
pub mod Dirty
