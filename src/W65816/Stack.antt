-- ===== src/W65816/Stack.antt =====
-- The stack of cpu/ctrl816.go.
use chippy.Prelude.{ℕ, ◌+◌, word, u8, u16, hi_byte, if◌then◌else◌}
use chippy.W65816.State.{Bus24, Regs, M, ◌>>=◌, ◌>>◌, pure, regs, on_regs}
use chippy.W65816.Width.{sp16, set_sp16, x_wide, lock_widths}
use chippy.W65816.Access.{pred16, read_data, write_data}

-- The stack pointer before a pull and after a push.
unfoldable pub sp_up : Regs → Regs
unfolding set_sp16
sp_up r = if r.e then record r { sp = u8 (r.sp + 1) } else set_sp16 (u16 (sp16 r + 1)) r

unfoldable pub sp_down : Regs → Regs
unfolding set_sp16
sp_down r = if r.e then record r { sp = u8 (r.sp + 0xFF) } else set_sp16 (pred16 (sp16 r)) r

unfoldable pub sp_set_raw : ℕ → Regs → Regs
sp_set_raw v r = record r { sp = u8 v; sp_hi = hi_byte v }

unfoldable pub sp_reforce_regs : Regs → Regs
sp_reforce_regs r = record r { sp_hi = if r.e then 1 else r.sp_hi }

-- `applyWidthTruncation`
unfoldable pub apply_width_truncation : Regs → Regs
unfolding lock_widths x_wide
apply_width_truncation r =
    let r = if r.e then lock_widths r else r in if x_wide r then r else record r { xh = 0; yh = 0 }

module _ {W : Type 0} (bus : Bus24 W) where
  unfoldable pub sp_push8 : ℕ → M W (Unit {0})
  sp_push8 v = do r ← regs; write_data bus (sp16 r) v; on_regs sp_down

  unfoldable pub sp_pull8 : M W ℕ
  sp_pull8 = do on_regs sp_up; r ← regs; read_data bus (sp16 r)

  unfoldable pub sp_push16 : ℕ → M W (Unit {0})
  sp_push16 v = do sp_push8 (hi_byte v); sp_push8 (u8 v)

  unfoldable pub sp_pull16 : M W ℕ
  sp_pull16 = do lo ← sp_pull8; hi ← sp_pull8; pure (word lo hi)

  unfoldable pub sp_push_new : ℕ → M W (Unit {0})
  sp_push_new v = do
    r ← regs
    write_data bus (sp16 r) v
    on_regs (λ r. sp_set_raw (pred16 (sp16 r)) r)

  unfoldable pub sp_pull_new : M W ℕ
  sp_pull_new = do on_regs (λ r. sp_set_raw (u16 (sp16 r + 1)) r); r ← regs; read_data bus (sp16 r)

  unfoldable pub sp_push16_new : ℕ → M W (Unit {0})
  sp_push16_new v = do sp_push_new (hi_byte v); sp_push_new (u8 v)

  unfoldable pub sp_pull16_new : M W ℕ
  sp_pull16_new = do lo ← sp_pull_new; hi ← sp_pull_new; pure (word lo hi)

module _ {W : Type 0} where
  unfoldable pub sp_reforce : M W (Unit {0})
  sp_reforce = on_regs sp_reforce_regs
