-- ===== src/W65816/Inline/Flow.antt =====
-- The jumps, calls and returns of the switch of step816 (cpu/exec816.go).
use chippy.Prelude.{ℕ, ◌+◌, ◌/◌, Bool, true, false, word, u8, u16}
use chippy.W65816.State.{Bus24, M, ◌>>=◌, ◌>>◌, pure, regs, on_regs}
use chippy.W65816.Width.{sp16, x_idx}
use chippy.W65816.Access.{
  banked, long, pred16, pin_none, read24, fetch816, fetch16, fetch24, io816, io_pc1, read_data,
}
use chippy.W65816.Modes.{bank_inc}
use chippy.W65816.Stack.{
  sp_pull8, sp_push16, sp_pull16, sp_push_new, sp_pull_new, sp_push16_new, sp_pull16_new,
  sp_reforce,
}
use chippy.W65816.Control.{set_pc, plp816}

module _ {W : Type 0} (bus : Bus24 W) where
  unfoldable pub jmp_abs : M W ℕ
  jmp_abs = do t ← fetch16 bus; on_regs (set_pc t); pure 3

  unfoldable pub jml_long : M W ℕ
  jml_long = do
    t ← fetch24 bus
    on_regs (λ r. record r { pbr = u8 (t / 0x10000); pc = u16 t })
    pure 4

  unfoldable pub jmp_ind : M W ℕ
  jmp_ind = do
    ptr ← fetch16 bus
    lo ← read_data bus ptr
    hi ← read24 bus (u16 (ptr + 1))
    on_regs (set_pc (word lo hi))
    pure 5

  -- The pointer read of JMP (abs,X) and JSR (abs,X).
  unfoldable pub read_pc : ℕ → M W (Unit {0})
  read_pc base = do
    r ← regs
    let a = banked r.pbr (u16 (base + x_idx r))
    lo ← read_data bus a
    hi ← read24 bus (bank_inc a)
    on_regs (set_pc (word lo hi))

  unfoldable pub jmp_ind_x : M W ℕ
  jmp_ind_x = do base ← fetch16 bus; io_pc1 bus; read_pc base; pure 6

  unfoldable pub jml_ind : M W ℕ
  jml_ind = do
    ptr ← fetch16 bus
    lo ← read_data bus ptr
    hi ← read_data bus (u16 (ptr + 1))
    bank ← read_data bus (u16 (ptr + 2))
    on_regs (λ r. record r { pbr = bank; pc = word lo hi })
    pure 6

  unfoldable pub jsr_abs : M W ℕ
  jsr_abs = do
    t ← fetch16 bus
    io_pc1 bus
    r ← regs
    sp_push16 bus (pred16 r.pc)
    on_regs (set_pc t)
    pure 6

  unfoldable pub jsl_long : M W ℕ
  jsl_long = do
    lo ← fetch816 bus
    mid ← fetch816 bus
    r ← regs
    sp_push_new bus r.pbr
    pin_none
    r ← regs
    _ ← read24 bus (u16 (sp16 r + 1))
    hi ← fetch816 bus
    r ← regs
    sp_push16_new bus (pred16 r.pc)
    sp_reforce
    let t = long lo mid hi
    on_regs (λ r. record r { pbr = u8 (t / 0x10000); pc = u16 t })
    pure 8

  unfoldable pub jsr_ind_x : M W ℕ
  jsr_ind_x = do
    lo ← fetch816 bus
    r ← regs
    sp_push16 bus r.pc
    hi ← fetch816 bus
    io_pc1 bus
    read_pc (word lo hi)
    pure 8

  unfoldable pub op_rts : M W ℕ
  op_rts = do
    io816 bus
    io816 bus
    lo ← sp_pull16 bus
    pin_none
    r ← regs
    _ ← read24 bus (sp16 r)
    on_regs (set_pc (u16 (lo + 1)))
    pure 6

  unfoldable pub op_rtl : M W ℕ
  op_rtl = do
    io816 bus
    io816 bus
    lo ← sp_pull16_new bus
    bank ← sp_pull_new bus
    on_regs (λ r. record r { pbr = bank })
    sp_reforce
    on_regs (set_pc (u16 (lo + 1)))
    pure 6

  -- The bank that RTI pulls in native mode.
  unfoldable pub rti_bank : Bool → M W ℕ
  rti_bank true = pure 6
  rti_bank false = do bank ← sp_pull8 bus; on_regs (λ r. record r { pbr = bank }); pure 7

  unfoldable pub op_rti : M W ℕ
  op_rti = do
    io816 bus
    io816 bus
    plp816 bus
    pc ← sp_pull16 bus
    on_regs (set_pc pc)
    r ← regs
    rti_bank r.e
