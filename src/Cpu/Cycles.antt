-- ===== src/Cpu/Cycles.antt =====
-- The per-cycle mode of the NES: how many ticks each action takes.
pub mod Counts
pub mod Accesses
pub mod Modes
pub mod Handlers
pub mod Ops
pub mod Table
pub mod Step
