-- ===== src/Cpu/Cmos.antt =====
-- The instructions that the 65C02 adds: the handlers of cpu/opcodes_cmos.go.
use chippy.Prelude.{
  ℕ, ◌+◌, ◌-◌, ◌^◌, Bool, true, false, not, u16, nonzero, and_not8, add_signed8, bit_and, bit_or,
  ◌==◌, if◌then◌else◌,
}
use chippy.Cpu.State.{M, Bus, Regs}
use chippy.Cpu.State.{◌>>=◌, ◌>>◌, pure, regs, on_regs}
use chippy.Cpu.Flags.{flag_z, set_flag}
use chippy.Cpu.Access.{read, write, idle, push, pop}
use chippy.Cpu.Addressing.{AddrMode, operand_byte}
use chippy.Cpu.Ops.{pull_idles, rmw_dummy}

abbrev pub same_bool : Bool → Bool → Bool
same_bool true b = b
same_bool false b = not b

module _ {W : Type 0} (bus : Bus W) where
  -- PHX, PHY
  unfoldable pub op_push_reg : (Regs → ℕ) → M W (Unit {0})
  op_push_reg source = do r ← regs; idle bus r.pc; r ← regs; push bus (source r)

  -- PLX, PLY
  unfoldable pub op_pull_reg : (ℕ → Regs → Regs) → M W (Unit {0})
  op_pull_reg put = do pull_idles bus; v ← pop bus; on_regs (put v)

  -- TRB and TSB, by the byte that is written for A and the byte read.
  unfoldable pub op_test_bits : (ℕ → ℕ → ℕ) → ℕ → AddrMode → M W (Unit {0})
  op_test_bits result addr m = do
    v ← read bus addr
    rmw_dummy bus addr m v
    on_regs (λ r. set_flag flag_z (bit_and v r.a == 0) r)
    r ← regs
    write bus addr (result r.a v)

  -- RMB and SMB
  unfoldable pub op_memory_bit : ℕ → Bool → ℕ → AddrMode → M W (Unit {0})
  op_memory_bit bit on addr m = do
    v ← read bus addr
    rmw_dummy bus addr m v
    write bus addr (if on then bit_or v (2 ^ bit) else and_not8 v (2 ^ bit))

  -- BBR and BBS
  unfoldable pub branch_bit_test : ℕ → Bool → M W (Unit {0})
  branch_bit_test bit branch_if_set = do
    zp_addr ← operand_byte bus
    v ← read bus zp_addr
    write bus zp_addr v
    off ← operand_byte bus
    r ← regs
    let target = add_signed8 r.pc off
    read bus (bit_or (bit_and r.pc 0xFF00) (bit_and target 0x00FF))
    if same_bool (nonzero (bit_and v (2 ^ bit))) branch_if_set
        then on_regs (λ r. record r { pc = target })
        else pure tt

  -- The 3-byte NOPs of the 65C02.
  unfoldable pub op_nop_abs : M W (Unit {0})
  op_nop_abs = do r ← regs; idle bus (u16 (r.pc + 65536 - 1))
