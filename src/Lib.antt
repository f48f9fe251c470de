-- ===== src/Lib.antt =====
-- A model of the casio-cg50 emulator (emu_go), which runs the calculator's OS image on an emulated
-- SH7305: an SH-4A core, and on-chip peripherals that the core reads and writes as memory and
-- that ask it for interrupts.
--
-- The parts and their files:
--
--   Intc      emu_go/intc.go, the interrupt controller: `intcUnit` with its priority and mask
--             registers, `MMIOBus.raise`, and from emu_go/cpu.go the pending requests: `raiseIRQ`,
--             `intcGate`, `gatePending`.
--   GTimer    emu_go/gtimer.go, the down-counters: `timerChan` and its save state, with the units
--             Etmu (`etmuCounter`) and Tmu (`tmu`). A channel keeps the cycle and the count at
--             which it started, and the count is worked out when it is read. Service and History follow
--             the schedule of its underflows.
--   Rtc       emu_go/rtc.go, the clock: the BCD calendar registers (Calendar, and Civil, where the
--             day number of a date is worked out by another formula) and the periodic interrupt.
--   Cpu       emu_go/cpu.go, the core: State (`CPU`, `setSR`), Signed (s8, s16, s32), Arith (the
--             arithmetic instructions), Bus (exceptions and the interface to the memory), Exec
--             (`execute` and `exec4` by the opcode's digits, `branchDelayed`, `slotIllegal`, and
--             `isDelayedBranch` of emu_go/ubc.go), Step (`acceptInterrupt`, `stepMMU`, `step`, `run` and
--             `ccn.raise` of emu_go/mmu.go).
--   Mmu       emu_go/mmu.go, the MMU: the control block `ccn` and the UTLB (`find`, `translate`,
--             `ldtlb`, `flush`, the fault bookkeeping of `raise`) and the memory-mapped arrays
--             `utlbArrays`; Saved, its save state; Peek, the view of the debugger.
--   Bytes     emu_go/memory.go, the big-endian accesses `beRead` and `beWrite` to a byte slice.
--   Flash     emu_go/memory.go, the NOR flash: `flashCmd`, programming and erasing, the status
--             that is read while a sector is erased; Delta, the flash image as a file
--             (Saved, the round trip; Outcome, the end of every file).
--   Memory    emu_go/memory.go, the memory map: `Read`, `Write` and `fetch16`, with translation,
--             the flash and the RAMs. The devices are the interface `Mmio`, whose writes may panic.
--   Bcd       emu_go/mmio.go, the decimal unit `bcdALU`.
--   Keysc     emu_go/keysc.go, the key-scan unit `keyscUnit` and the queue of taps `keyTapper`.
--   Ubc       emu_go/ubc.go, the user-break controller and `stepUBC`.
--   Lcd       emu_go/lcd.go, the display controller `lcd`: Window, Walk, Stream and Fill follow the
--             address counter, Picture the pictures that the host draws, Saved the save state.
--   Dma       emu_go/mmio.go, the DMA controller `dmac` (`write`, `memTransfer`), and `span` of
--             emu_go/memory.go: Push to the display, Copy between memories.
--   Adc       emu_go/mmio.go, the battery converter `periphIRQ`.
--   Bus       emu_go/mmio.go, the windows of the devices and `findHit`, which finds the device for an
--             address (Table, Lookup), and the registers that are stubs, such as the clock generator.
--   Board     emu_go/mmio.go, `MMIOBus.tick`, and emu_go/emulator.go, `nextDue` and
--             `flushReleases`: Quiet and Due, what no tick before `nextDue` changes.
--   Emulator  emu_go/emulator.go, the slow path of `stepLocked` and its jump over sleep (Asleep),
--             and the keys of the host, `KeyDown` and `KeyUp` (Hold).
--   Base      Boolean tests, lists and words on native numbers, binary digits and masks, register
--             maps.
--
-- A peripheral's `tick` raises requests, Intc lets them through into the list of pending requests,
-- and the core takes one from the list before an instruction. A method with a pointer receiver is
-- a function from the state before to the state after; the CPU's cycle count is an argument of the
-- peripherals. Words are numbers below 2 ^ 32 or 2 ^ 64, cut where Go's arithmetic wraps; signed
-- words are their two's complement.
--
-- The core sees the memory through the interface `Bus`: reads and writes, which may end in an
-- `mmuFault`, and the few other things that the core asks of it; `memory_bus` of Memory fills it.
-- A Go panic is an outcome of `Run`. In Go `branchDelayed`
-- calls `execute` on the slot; here the delayed branches are found by `branch_of` and the slot runs
-- `exec_plain`, which is `execute` for every instruction that a slot may hold.
--
-- Fuel: `catch_up`, the loop of `service`, has `cyc - next + 1` rounds, and each adds at least 1 to
-- `next`; `year_loop` has one round more than there are days, and each takes a year's days away.
-- Both are used with that much. `apply_records`, the loop of `applyFlashDelta`, has as many rounds
-- as the file has bytes, and each takes a record of at least four bytes away. Loops over a range
-- (`program_bytes`, `delta_from`, the digits of the decimal unit, the entries of the UTLB) are
-- structural.
--
-- `run` has the fuel that it is given: nothing bounds the rounds of its loop, since a routine that
-- runs natively takes no cycle by itself; the theorem about it holds at every fuel.
--
-- Not modelled, though part of the machine: the scheduled loop around the slow path and the
-- jump, and the hooks that replace routines of the OS. Not modelled: files, the host debugger, the
-- desktop and phone applications, and the tools, which are input and output or stand apart.
pub mod Base
pub mod Intc
pub mod GTimer
pub mod Rtc
pub mod Cpu
pub mod Mmu
pub mod Bytes
pub mod Flash
pub mod Memory
pub mod Bcd
pub mod Keysc
pub mod Ubc
pub mod Lcd
pub mod Dma
pub mod Adc
pub mod Bus
pub mod Board
pub mod Emulator
