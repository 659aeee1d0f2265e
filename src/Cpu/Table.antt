-- ===== src/Cpu/Table.antt =====
-- The opcode tables of cpu/opcodes.go, cpu/opcodes_illegal.go and cpu/opcodes_cmos.go.
-- Go runs the `init` functions in the order of the file names, so OpcodesCMOS copies a table
-- that has the documented rows and not yet the undocumented ones.
pub mod Row
mod Legal
mod Undocumented
mod Rockwell
unfoldable pub use Legal.{legal_rows}
unfoldable pub use Undocumented.{illegal_rows}
unfoldable pub use Rockwell.{cmos_rows}
use text.Mathlib.Text.{◌==◌ as str_eq}
use chippy.Prelude.{
  ℕ, zero, suc, ◌+◌, ◌*◌, ◌%◌, Bool, true, false, List, [], ◌∷◌, ◌++◌, String, ◌||◌, ◌==◌,
  if◌then◌else◌,
}
use chippy.Cpu.State.{Variant, nmos, cmos65c02, nes}
use chippy.Cpu.Addressing.{AddrMode, imp, imm, zp, zpx, abs, zpr}
use chippy.Cpu.Instr.{Op, Instr, nop, op_nop2, nop_abs, op_wai, stp, rmb, smb, bbr, bbs}
use chippy.Cpu.Table.Row.{row, after_rows}

abbrev pub placeholder : Instr
placeholder = record { name = "???"; mode = imp; bytes = 1; cycles = 2; page_add = false; op = nop }

-- `Opcodes` when only the `init` of opcodes.go has run.
unfoldable pub opcodes_documented : ℕ → Instr
unfolding after_rows legal_rows
opcodes_documented code = after_rows legal_rows code placeholder

unfoldable pub opcodes : ℕ → Instr
unfolding after_rows illegal_rows opcodes_documented
opcodes code = after_rows illegal_rows code (opcodes_documented code)

-- The four Rockwell rows of each bit from `bit` on.
unfoldable pub bit_rows : ℕ → ℕ → List Row.Row
unfolding row
bit_rows zero bit = []
bit_rows (suc left) bit =
    row (0x07 + bit * 0x10) "RMB" zp 2 5 false (rmb bit)
    ∷ row (0x87 + bit * 0x10) "SMB" zp 2 5 false (smb bit)
    ∷ row (0x0F + bit * 0x10) "BBR" zpr 3 6 false (bbr bit)
    ∷ row (0x8F + bit * 0x10) "BBS" zpr 3 6 false (bbs bit)
    ∷ bit_rows left (bit + 1)

abbrev nop_instr : AddrMode → ℕ → ℕ → Op → Instr
nop_instr mode bytes cycles op = record {
  name = "NOP";
  mode = mode;
  bytes = bytes;
  cycles = cycles;
  page_add = false;
  op = op;
}

-- The NOP that cmosNOPs installs at a slot whose name is still "???".
unfoldable pub cmos_nop : ℕ → Instr
cmos_nop code =
    let lo = code % 16 in
    if lo == 0x02
    then nop_instr imm 2 2 op_nop2
    else if lo == 0x03 || lo == 0x0B
    then nop_instr imp 1 1 nop
    else if lo == 0x04
    then (if code == 0x44 then nop_instr zp 2 3 op_nop2 else nop_instr zpx 2 4 op_nop2)
    else if lo == 0x0C
    then nop_instr abs 3 4 nop_abs
    else if code == 0x54 || code == 0xD4 || code == 0xF4
    then nop_instr zpx 2 4 op_nop2
    else nop_instr imp 1 1 nop

unfoldable pub fill_cmos_nop : ℕ → Instr → Instr
unfolding cmos_nop
fill_cmos_nop code i = if str_eq i.name "???" then cmos_nop code else i

unfoldable pub halt_rows : List Row.Row
unfolding row
halt_rows = row 0xCB "WAI" imp 1 3 false op_wai ∷ row 0xDB "STP" imp 1 3 false stp ∷ []

unfoldable pub opcodes_cmos : ℕ → Instr
unfolding after_rows cmos_rows opcodes_documented bit_rows fill_cmos_nop halt_rows
opcodes_cmos code =
    let inherited = after_rows cmos_rows code (opcodes_documented code) in
    let with_bits = after_rows (bit_rows 8 0) code inherited in
    after_rows halt_rows code (fill_cmos_nop code with_bits)

-- `bindTable`
unfoldable pub table : Variant → ℕ → Instr
unfolding opcodes opcodes_cmos
table cmos65c02 = opcodes_cmos
table nmos = opcodes
table nes = opcodes
