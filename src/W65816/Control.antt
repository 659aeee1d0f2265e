-- ===== src/W65816/Control.antt =====
-- The control flow of cpu/ctrl816.go, the jumps, calls and returns of step816
-- (cpu/exec816.go), and serviceInterrupt816 (cpu/cpu.go).
use chippy.Prelude.{
  ℕ, zero, suc, ◌+◌, ◌-◌, ◌*◌, ◌^◌, Bool, true, false, not, ◌&&◌, bit_and, bit_or, word, u16,
  add_signed8, and_not8, ltb, ◌==◌, if◌then◌else◌,
}
use chippy.Cpu.Flags.{flag_i, flag_d, flag_b, flag_u}
use chippy.W65816.State.{Bus24, Regs, M, ◌>>=◌, ◌>>◌, pure, regs, on_regs, add_cycles}
use chippy.W65816.Width.{set_flag, a16, x16, y16, set_a16, set_x16, set_y16}
use chippy.W65816.Access.{
  banked, pred16, pin_vector, read24, write24, fetch816, fetch16, io816, io_pc1,
}
use chippy.W65816.Modes.{when}
use chippy.W65816.Stack.{sp_push8, sp_pull8, sp_push16, apply_width_truncation}

-- `uint16(int(pc) + int(int16(off)))`
unfoldable pub add_signed16 : ℕ → ℕ → ℕ
add_signed16 pc off = u16 (if ltb off 0x8000 then pc + off else pc + 2 ^ 32 - (0x10000 - off))

unfoldable pub set_pc : ℕ → Regs → Regs
set_pc v r = record r { pc = v }

-- `c.PBR = 0`, then I set and D clear.
unfoldable pub enter_handler : Regs → Regs
unfolding set_flag
enter_handler r = set_flag flag_d false (set_flag flag_i true (record r { pbr = 0 }))

module _ {W : Type 0} (bus : Bus24 W) where
  -- A taken branch, its operand read.
  unfoldable pub branch_to : ℕ → Regs → M W ℕ
  branch_to disp r = do
    let target = add_signed8 r.pc disp
    let far = r.e && not (bit_and r.pc 0xFF00 == bit_and target 0xFF00)
    when far (io_pc1 bus)
    on_regs (set_pc target)
    pure (if far then 4 else 3)

  unfoldable pub branch816 : Bool → M W ℕ
  branch816 false = do _ ← fetch816 bus; pure 2
  branch816 true = do disp ← fetch816 bus; io_pc1 bus; r ← regs; branch_to disp r

  -- `c.branch816(test)`: Go evaluates the test before the call.
  unfoldable pub branch_if : (Regs → Bool) → M W ℕ
  branch_if test = do r ← regs; branch816 (test r)

  unfoldable pub brl : M W ℕ
  brl = do disp ← fetch16 bus; io_pc1 bus; on_regs (λ r. set_pc (add_signed16 r.pc disp) r); pure 4

  unfoldable pub plp816 : M W (Unit {0})
  plp816 = do p ← sp_pull8 bus; on_regs (λ r. apply_width_truncation (record r { p = p }))

  -- The pushes of an interrupt entry: `emu` is the status byte that emulation mode pushes.
  unfoldable pub push_state : (Regs → ℕ) → Bool → M W ℕ
  push_state emu true = do r ← regs; sp_push16 bus r.pc; r ← regs; sp_push8 bus (emu r); pure 7
  push_state emu false = do
    r ← regs
    sp_push8 bus r.pbr
    sp_push16 bus r.pc
    sp_push8 bus r.p
    pure 8

  -- The pushes, the flags and the vector, which BRK, COP and the hardware interrupts share.
  unfoldable pub enter : (Regs → ℕ) → ℕ → ℕ → M W ℕ
  enter emu vec_emu vec_nat = do
    r ← regs
    cyc ← push_state emu r.e
    on_regs enter_handler
    r ← regs
    let vec = if r.e then vec_emu else vec_nat
    pin_vector
    lo ← read24 bus vec
    hi ← read24 bus (vec + 1)
    on_regs (set_pc (word lo hi))
    pure cyc

  unfoldable pub brk : M W ℕ
  brk = do _ ← fetch816 bus; enter (λ r. bit_or r.p flag_b) 0xFFFE 0xFFE6

  unfoldable pub cop : M W ℕ
  cop = do _ ← fetch816 bus; enter (λ r. r.p) 0xFFF4 0xFFE4

  unfoldable pub service_interrupt816 : ℕ → ℕ → M W ℕ
  service_interrupt816 vec_emu vec_nat = do
    io816 bus
    io816 bus
    cyc ← enter (λ r. and_not8 (bit_or r.p flag_u) flag_b) vec_emu vec_nat
    add_cycles cyc
    pure cyc

  -- One byte of a block move; `step` is 1 or, for -1, 0xFFFF. The answer is `done`.
  unfoldable pub move_byte : ℕ → ℕ → ℕ → M W Bool
  move_byte dst src step = do
    r ← regs
    v ← read24 bus (banked src (x16 r))
    write24 bus (banked dst (y16 r)) v
    on_regs (λ r. set_x16 (u16 (x16 r + step)) r)
    on_regs (λ r. set_y16 (u16 (y16 r + step)) r)
    r ← regs
    on_regs (λ r. set_a16 (pred16 (a16 r)) r)
    pure (a16 r == 0)

  unfoldable pub until_done : M W Bool → Bool → M W Bool
  until_done again true = pure true
  until_done again false = again

  -- The loop, which tells whether it ended before its fuel.
  unfoldable pub block_loop : ℕ → ℕ → ℕ → ℕ → M W Bool
  block_loop zero dst src step = pure false
  block_loop (suc fuel) dst src step = do
    done ← move_byte dst src step
    until_done (block_loop fuel dst src step) done

  unfoldable pub block_move : ℕ → M W ℕ
  block_move step = do
    dst ← fetch816 bus
    src ← fetch816 bus
    on_regs (λ r. record r { dbr = dst })
    r ← regs
    ended ← block_loop 0x10000 dst src step
    pure (if ended then 7 * (a16 r + 1) else 0)
