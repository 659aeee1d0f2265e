-- ===== src/Cpu/World.antt =====
-- What the devices keep, every action of the CPU keeps.
pub mod Keeps
pub mod Accesses
pub mod Ops
pub mod Step
