-- ===== src/W65816/Counted.antt =====
-- The cycles that an instruction returns against the bus accesses that it makes.
pub mod Rules
pub mod Access
pub mod Stack
pub mod Modes
pub mod Calm
pub mod Sums
pub mod Kernels
pub mod Inline
pub mod Control
pub mod Cases
pub mod Step
pub mod Whole
