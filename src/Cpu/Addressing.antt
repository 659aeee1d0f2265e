-- ===== src/Cpu/Addressing.antt =====
-- cpu/addressing.go: the addressing modes and `resolve`.
pub mod Pages
use chippy.Prelude.{
  ℕ, ◌+◌, ◌-◌, Bool, true, false, not, u8, u16, word, bit_and, bit_or, add_signed8, ◌==◌,
  if◌then◌else◌,
}
use chippy.Cpu.State.{M, Bus, Regs, Variant, cmos65c02}
use chippy.Cpu.State.{◌>>=◌, ◌>>◌, pure, regs, variant, on_regs}
use chippy.Cpu.Access.{read, idle}

pub data AddrMode : Type 0 where
  imp acc imm zp zpx zpy rel abs abx aby ind izx izy izp iax zpr jsrabs : AddrMode

-- `(base & 0xFF00) != (addr & 0xFF00)`
unfoldable pub page_differs : ℕ → ℕ → Bool
page_differs base addr = not (bit_and base 0xFF00 == bit_and addr 0xFF00)

-- `(ptr & 0xFF00) | uint16(byte(ptr)+1)`: the next byte on the same page.
unfoldable pub same_page_next : ℕ → ℕ
same_page_next ptr = bit_or (bit_and ptr 0xFF00) (u8 (u8 ptr + 1))

abbrev pub is_cmos : Variant → Bool
is_cmos cmos65c02 = true
is_cmos _ = false

module _ {W : Type 0} where
  -- `c.PC += n`
  unfoldable pub bump_pc : ℕ → M W (Unit {0})
  bump_pc n = on_regs (λ r. record r { pc = u16 (r.pc + n) })

module _ {W : Type 0} (bus : Bus W) where
  -- `c.read(c.PC); c.PC++`
  unfoldable pub operand_byte : M W ℕ
  operand_byte = do r ← regs; v ← read bus r.pc; bump_pc 1; pure v

  -- `lo`, `hi`, `c.PC += 2`, `lo | hi<<8`
  unfoldable pub operand_word : M W ℕ
  operand_word = do
    r ← regs
    lo ← read bus r.pc
    hi ← read bus (u16 (r.pc + 1))
    bump_pc 2
    pure (word lo hi)

  -- Two bytes of a pointer, at the addresses given.
  unfoldable pub read_word : ℕ → ℕ → M W ℕ
  read_word lo_addr hi_addr = do lo ← read bus lo_addr; hi ← read bus hi_addr; pure (word lo hi)

  -- The cases ZPX and ZPY.
  unfoldable pub zero_page_indexed : (Regs → ℕ) → M W (ℕ × Bool)
  zero_page_indexed index = do
    base ← operand_byte
    idle bus base
    r ← regs
    pure (bit_and (u8 (base + index r)) 0xFF, false)

  -- The cases ABX and ABY.
  unfoldable pub absolute_indexed : (Regs → ℕ) → M W (ℕ × Bool)
  absolute_indexed index = do
    base ← operand_word
    r ← regs
    let addr = u16 (base + index r)
    pure (addr, page_differs base addr)

  -- The case IND: the page-wrap bug of the NMOS part, and its repair on the 65C02.
  unfoldable pub indirect : ℕ → M W ℕ
  indirect ptr = do
    v ← variant
    if is_cmos v
        then (do
          lo ← read bus ptr
          idle bus (same_page_next ptr)
          hi ← read bus (u16 (ptr + 1))
          pure (word lo hi))
        else read_word ptr (same_page_next ptr)

  unfoldable pub resolve : AddrMode → M W (ℕ × Bool)
  resolve imp = pure (0, false)
  resolve acc = pure (0, false)
  resolve imm = do r ← regs; bump_pc 1; pure (r.pc, false)
  resolve zp = do addr ← operand_byte; pure (addr, false)
  resolve zpx = zero_page_indexed (λ r. r.x)
  resolve zpy = zero_page_indexed (λ r. r.y)
  resolve rel = do off ← operand_byte; r ← regs; pure (add_signed8 r.pc off, false)
  resolve abs = do addr ← operand_word; pure (addr, false)
  resolve jsrabs = do addr ← operand_byte; pure (addr, false)
  resolve abx = absolute_indexed (λ r. r.x)
  resolve aby = absolute_indexed (λ r. r.y)
  resolve ind = do ptr ← operand_word; addr ← indirect ptr; pure (addr, false)
  resolve izx = do
    ptr ← operand_byte
    idle bus ptr
    r ← regs
    let zp_addr = u8 (ptr + r.x)
    addr ← read_word zp_addr (u8 (zp_addr + 1))
    pure (addr, false)
  resolve izy = do
    zp_addr ← operand_byte
    base ← read_word zp_addr (u8 (zp_addr + 1))
    r ← regs
    let addr = u16 (base + r.y)
    pure (addr, page_differs base addr)
  resolve izp = do
    zp_addr ← operand_byte
    addr ← read_word zp_addr (u8 (zp_addr + 1))
    pure (addr, false)
  resolve iax = do
    base ← operand_word
    r ← regs
    idle bus (u16 (r.pc + 65536 - 2))
    let ptr = u16 (base + r.x)
    addr ← read_word ptr (u16 (ptr + 1))
    pure (addr, false)
  resolve zpr = pure (0, false)
