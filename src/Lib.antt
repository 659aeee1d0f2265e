-- ===== src/Lib.antt =====
-- chippy: a 6502 debugger. This library models the emulator core in cpu/, the reverse step and the
-- expressions that the debugger front ends build on it, the devices and the program loader.
--
-- The parts and how they interact:
--   * the CPU (cpu/cpu.go, cpu/exec.go, cpu/addressing.go, cpu/opcodes*.go, cpu/dma.go) runs one
--     instruction or one interrupt entry per call of Step. It reaches the host by the bus and by
--     optional hooks alone; a device may raise interrupts or ask for DMA inside such a call;
--   * the 65C816 (cpu/exec816.go and the other files *816.go) is a second core with a 24-bit bus of
--     its own, which may have the 16-bit bus of the others as its bank 0;
--   * the RAM (cpu/memory.go) is one such host. It keeps the images of the pages that a program
--     writes, and suppresses writes to frozen addresses;
--   * a snapshot (cpu/snapshot.go) with the page images of a step brings the machine back
--     (stepWithSnapshot in dap/steps.go), and a save state (cpu/state.go) keeps it on disk;
--   * MMIO (cpu/peripheral.go) is a bus that serves ranges of addresses by devices (peripheral/) and
--     the others by the bus behind it; the serial port drives the CPU's interrupt line;
--   * the loader (loader/loader.go) fills the RAM before a run, and an expression (expr/expr.go) is
--     compiled once and evaluated on the CPU and its bus, as a condition of a breakpoint or a watch.
--
-- The files:
--   Prelude.antt            names, tests and words that all share: Go's byte, uint16, uint64, int
--   Cpu/State.antt          the struct CPU in groups of fields, the host as the record Bus, and
--                           the monad M of functions from a CPU to a value and a CPU
--   Cpu/Flags, Cpu/Alu      setFlag, setZN, the arithmetic of opADC, opSBC, cmp
--   Cpu/Access, Access/Dma  read, fetch, write, idle, the stack, sampleNMI, ProcessPendingDma
--   Cpu/Addressing          resolve
--   Cpu/Ops, Illegal, Cmos  the handlers of exec.go, opcodes_illegal.go, opcodes_cmos.go
--   Cpu/Instr, Cpu/Table    the struct Instr and the three opcode tables, row by row
--   Cpu/Lines               AssertIRQSource and its like, SetNeedSpriteDma, Reset
--   Cpu/Step                serviceVector, addrDummies and Step
--   Memory, Rewind          the type RAM, Snapshot and Restore
--   Rewind/Ring             SnapshotRing and KeyframeRing
--   Cpu/FullState           SaveFullState and LoadFullState of the CPU
--   Memory/Saved, Frame     the RAM's save state, DetectStackFrame
--   Mmio, Peripheral/*      MMIO, ACIA, KeyboardInput and TextOutput
--   Expr/Value, Token       the closures that evaluate an expression, and the tokens
--   Expr/Lex, Expr/Parse    tokenize, parseOr to parsePrimary, Compile
--   Expr/Syntax             the language as the package comment gives it, apart from the parser
--   W65816                  the 65C816: cpu/*816.go, with Step and Reset on that variant
--   Cpu/Disasm              disasmWithTable, WalkBack
--   Symbols, Symbols/Table  parseKV, parseNum; Table and LoadDbg
--   Dap/Dirty               the access hook's marks and flushDirtyRanges
--   Loader, Loader/Hex      loadBin, loadPRG, loadObject and Load; loadHEX
--   Cpu/Cycles, Cpu/World, and the other files below a file named here: the proofs
--   Tests                   concrete machines
--
-- A Go function that is the value of a table entry is a name of the data type Op, which `exec`
-- interprets. A byte is a natural number; where the source wraps, the model writes `% 256` and
-- so on. Host callbacks are functions on the interrupt and DMA lines with the state of the
-- devices: they cannot call Step, which no device of the repository does. A panic of Step is
-- the outcome `cycle_mismatch`.
--
-- Fuel: the loop of ProcessPendingDma runs as long as devices ask for DMA, so that a device may
-- keep it running for ever. The model stops it after 4096 cycles; a sprite transfer is 256
-- reads and 256 writes. The expression parser's calls carry fuel, twelve units for a token and twelve
-- more: a call goes down at most twelve calls before it reads a token. The lexer's fuel is the
-- length of the text, and so is that of parseKV's loop (Symbols/Fuel). WalkBack's decoding has a unit
-- for each byte to the address and one more. A block move of the 65816 has a unit for each of its
-- 65536 bytes at most.
--
-- A file is what reading it returns; the scanner's lines, the linker ld65, the host's names and the
-- symbol table are parameters. Source text is a list of bytes.
--
-- Not modelled: the tracer hook and its logs, the bus-trace recorder and the disassembler of the
-- 65C816, peripherals in snapshots, the source maps of symbols, the rest of the debug adapter, and
-- the terminal and web front ends.
pub mod Prelude
pub mod Cpu
pub mod W65816
pub mod Memory
pub mod Rewind
pub mod Mmio
pub mod Peripheral
pub mod Expr
pub mod Loader
pub mod Symbols
pub mod Dap
pub mod Tests
