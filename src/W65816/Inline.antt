-- ===== src/W65816/Inline.antt =====
-- The bodies of the switch of step816 (cpu/exec816.go) that use the bus.
pub mod Flow
unfoldable pub use Flow.*
use chippy.Prelude.{ℕ, ◌+◌, ◌/◌, Bool, true, false, word, u8, u16}
use chippy.W65816.State.{
  Bus24, Regs, M, ◌>>=◌, ◌>>◌, pure, regs, on_regs, set_halted, set_stopped_by_stp,
}
use chippy.W65816.Width.{set_zn, set_zn16, sp16, x_idx}
use chippy.W65816.Access.{
  banked, long, pred16, pin_none, read24, fetch816, fetch16, fetch24, io816, io_pc1, read_data,
  read_imm,
}
use chippy.W65816.Modes.{b2i, bank_inc, dl_penalty, dp_io, read_dp_word_wrap}
use chippy.W65816.Stack.{
  sp_push8, sp_pull8, sp_push16, sp_pull16, sp_push_new, sp_pull_new, sp_push16_new, sp_pull16_new,
  sp_reforce, apply_width_truncation,
}
use chippy.W65816.Control.{add_signed16, set_pc, plp816}
use chippy.W65816.Transfer.{xba as swap_acc, sep_mask, rep_mask}

module _ {W : Type 0} (bus : Bus24 W) where
  -- A register operation: the opcode fetch and an internal cycle.
  unfoldable pub internal : (Regs → Regs) → M W ℕ
  internal f = do on_regs f; io816 bus; pure 2

  unfoldable pub op_xba : M W ℕ
  op_xba = do on_regs swap_acc; io816 bus; io816 bus; pure 3

  -- `v, e := c.readImm(width)`, the operation, and `cyc += e`.
  unfoldable pub immediate : (Regs → Bool) → (ℕ → Regs → Regs) → M W ℕ
  immediate width f = do r ← regs; (v, e) ← read_imm bus (width r); on_regs (f v); pure (2 + e)

  unfoldable pub op_sep : M W ℕ
  op_sep = do
    mask ← fetch816 bus
    on_regs (λ r. apply_width_truncation (sep_mask mask r))
    io_pc1 bus
    pure 3

  unfoldable pub op_rep : M W ℕ
  op_rep = do mask ← fetch816 bus; on_regs (rep_mask mask); io_pc1 bus; pure 3

  -- PHA, PHX, PHY: the width, the 16-bit value and its low byte.
  unfoldable pub push_value : Bool → ℕ → ℕ → M W (Unit {0})
  push_value true v lo = sp_push16 bus v
  push_value false v lo = sp_push8 bus lo

  unfoldable pub push_reg : (Regs → Bool) → (Regs → ℕ) → (Regs → ℕ) → M W ℕ
  push_reg width v lo = do
    io816 bus
    r ← regs
    push_value (width r) (v r) (lo r)
    r ← regs
    pure (3 + b2i (width r))

  -- PLA, PLX, PLY: the two ways to put the value.
  unfoldable pub pull_value : Bool → (ℕ → Regs → Regs) → (ℕ → Regs → Regs) → M W (Unit {0})
  pull_value true put16 put8 = do v ← sp_pull16 bus; on_regs (put16 v)
  pull_value false put16 put8 = do v ← sp_pull8 bus; on_regs (put8 v)

  unfoldable pub pull_reg : (Regs → Bool) → (ℕ → Regs → Regs) → (ℕ → Regs → Regs) → M W ℕ
  pull_reg width put16 put8 = do
    io816 bus
    io816 bus
    r ← regs
    pull_value (width r) put16 put8
    r ← regs
    pure (4 + b2i (width r))

  -- PHP, PHB, PHK
  unfoldable pub push_byte : (Regs → ℕ) → M W ℕ
  push_byte v = do io816 bus; r ← regs; sp_push8 bus (v r); pure 3

  unfoldable pub op_plp : M W ℕ
  op_plp = do io816 bus; io816 bus; plp816 bus; pure 4

  unfoldable pub op_plb : M W ℕ
  op_plb = do
    io816 bus
    io816 bus
    v ← sp_pull8 bus
    on_regs (λ r. set_zn v (record r { dbr = v }))
    pure 4

  unfoldable pub op_phd : M W ℕ
  op_phd = do io816 bus; r ← regs; sp_push16_new bus r.d; sp_reforce; pure 4

  unfoldable pub op_pld : M W ℕ
  op_pld = do
    io816 bus
    io816 bus
    v ← sp_pull16_new bus
    on_regs (λ r. record r { d = v })
    sp_reforce
    on_regs (set_zn16 v)
    pure 5

  unfoldable pub op_pea : M W ℕ
  op_pea = do v ← fetch16 bus; sp_push16_new bus v; sp_reforce; pure 5

  unfoldable pub op_pei : M W ℕ
  op_pei = do
    dp ← fetch816 bus
    dp_io bus
    v ← read_dp_word_wrap bus dp
    sp_push16_new bus v
    sp_reforce
    r ← regs
    pure (6 + dl_penalty r)

  unfoldable pub op_per : M W ℕ
  op_per = do
    disp ← fetch16 bus
    io_pc1 bus
    r ← regs
    sp_push16_new bus (add_signed16 r.pc disp)
    sp_reforce
    pure 6

  unfoldable pub op_wdm : M W ℕ
  op_wdm = do
    pin_none
    r ← regs
    _ ← read24 bus (banked r.pbr r.pc)
    on_regs (λ r. set_pc (u16 (r.pc + 1)) r)
    pure 2

module _ {W : Type 0} where
  unfoldable pub op_wai : M W ℕ
  op_wai = do set_halted true; pure 4

  unfoldable pub op_stp : M W ℕ
  op_stp = do set_halted true; set_stopped_by_stp true; pure 4
