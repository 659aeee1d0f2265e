-- ===== src/Cpu/Table/Row.antt =====
-- A write `set(op, name, mode, bytes, cycles, pageAdd, fn)` to an opcode table, and the value
-- that a table holds after a row of writes.
use chippy.Prelude.{ℕ, Bool, List, [], ◌∷◌, String, ◌==◌, if◌then◌else◌}
use chippy.Cpu.Addressing.{AddrMode}
use chippy.Cpu.Instr.{Op, Instr}

abbrev pub Row : Type 0
Row = ℕ × Instr

unfoldable pub row : ℕ → String → AddrMode → ℕ → ℕ → Bool → Op → Row
row code name mode bytes cycles page_add op = (
  code,
  record { name = name; mode = mode; bytes = bytes; cycles = cycles; page_add = page_add; op = op },
)

-- A later write to the same slot replaces an earlier one.
unfoldable pub after_rows : List Row → ℕ → Instr → Instr
after_rows [] code i = i
after_rows ((k, j) ∷ rest) code i = after_rows rest code (if k == code then j else i)
