-- ===== src/Cpu.antt =====
-- cpu/: the 6502 cores (NMOS, 65C02 and the 2A03 of the NES).
pub mod State
pub mod Flags
pub mod Alu
pub mod Access
pub mod Addressing
pub mod Ops
pub mod Illegal
pub mod Cmos
pub mod Instr
pub mod Table
pub mod Lines
pub mod FullState
pub mod Disasm
pub mod Step
pub mod Cycles
pub mod World
