-- ===== src/Cpu/Exec.antt =====
-- The instruction set: the tables of `execute` by the opcode's high digit, the branches, and the
-- whole of `execute`.
pub mod Low
pub mod Alu
pub mod Load
pub mod System
pub mod Branch
pub mod Slot
