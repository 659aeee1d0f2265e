-- ===== src/W65816.antt =====
-- The 65C816 core: cpu/cpu816.go, cpu/addr816.go, cpu/arith816.go, cpu/ctrl816.go,
-- cpu/exec816.go, and its part of cpu/cpu.go and cpu/exec.go.
pub mod State
pub mod Width
pub mod Access
pub mod Modes
pub mod Resolve
pub mod Decimal
pub mod Alu
pub mod Kernels
pub mod Stack
pub mod Control
pub mod Transfer
pub mod Inline
pub mod Cases
pub mod Step
pub mod Kept
pub mod Counted
pub mod Locked
pub mod Moves
pub mod Banked
pub mod Calls
pub mod Sums
