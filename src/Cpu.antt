-- ===== src/Cpu.antt =====
-- emu_go/cpu.go, the SH-4A core: its registers (State), signed words (Signed), the arithmetic
-- instructions (Arith), the instruction set (Exec and its children) and the step (Step).
pub mod Signed
pub mod State
pub mod Arith
pub mod Bus
pub mod Exec
pub mod Step
mod Tests
