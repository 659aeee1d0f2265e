-- ===== src/W65816/Locked.antt =====
-- The registers that the modes lock: what every instruction but the block moves keeps.
pub mod Rules
pub mod Registers
pub mod Status
pub mod Access
pub mod Ops
pub mod Control
pub mod Cases
pub mod Step
