-- ===== src/W65816/Resolve.antt =====
-- The addressing-mode resolvers of cpu/addr816.go.
use chippy.Prelude.{ℕ, ◌+◌, ◌%◌, word, u16}
use chippy.W65816.State.{Bus24, M, ◌>>=◌, ◌>>◌, pure, regs}
use chippy.W65816.Width.{sp16, x_idx, y_idx}
use chippy.W65816.Access.{banked, read24, fetch816, fetch16, fetch24, io_pc1, read_data, pin_none}
use chippy.W65816.Modes.{
  Ea, plain, in_bank0, dl_penalty, dp_base, indexed, dp_io, read_dp_word, read_dp_long,
  read_dp_long_wrap,
}

-- The effective address and the overhead cycles.
abbrev pub Mode : Type 0 → Type 0
Mode W = M W (Ea × ℕ)

module _ {W : Type 0} (bus : Bus24 W) where
  unfoldable pub am_dp : Mode W
  am_dp = do
    dp ← fetch816 bus
    dp_io bus
    r ← regs
    pure (in_bank0 (dp_base dp 0 r), 2 + dl_penalty r)

  unfoldable pub am_dp_idx : ℕ → Mode W
  am_dp_idx idx = do
    dp ← fetch816 bus
    dp_io bus
    io_pc1 bus
    r ← regs
    pure (in_bank0 (dp_base dp idx r), 3 + dl_penalty r)

  unfoldable pub am_abs : Mode W
  am_abs = do a ← fetch16 bus; r ← regs; pure (plain (banked r.dbr a), 3)

  unfoldable pub am_abs_idx : ℕ → Mode W
  am_abs_idx idx = do base ← fetch16 bus; r ← regs; pure (indexed r.dbr base idx, 3)

  unfoldable pub am_long : Mode W
  am_long = do a ← fetch24 bus; pure (plain a, 4)

  unfoldable pub am_long_x : Mode W
  am_long_x = do a ← fetch24 bus; r ← regs; pure (plain ((a + x_idx r) % 0x1000000), 4)

  unfoldable pub am_ind_dp : Mode W
  am_ind_dp = do
    dp ← fetch816 bus
    dp_io bus
    ptr ← read_dp_word bus dp 0
    r ← regs
    pure (plain (banked r.dbr ptr), 4 + dl_penalty r)

  unfoldable pub am_ind_dp_y : Mode W
  am_ind_dp_y = do
    dp ← fetch816 bus
    dp_io bus
    ptr ← read_dp_word bus dp 0
    r ← regs
    pure (indexed r.dbr ptr (y_idx r), 4 + dl_penalty r)

  unfoldable pub am_ind_dp_x : Mode W
  am_ind_dp_x = do
    dp ← fetch816 bus
    dp_io bus
    io_pc1 bus
    r ← regs
    ptr ← read_dp_word bus dp (x_idx r)
    r ← regs
    pure (plain (banked r.dbr ptr), 5 + dl_penalty r)

  unfoldable pub am_ind_long_dp : Mode W
  am_ind_long_dp = do
    dp ← fetch816 bus
    dp_io bus
    ptr ← read_dp_long bus dp
    r ← regs
    pure (plain ptr, 5 + dl_penalty r)

  unfoldable pub am_ind_long_dp_y : Mode W
  am_ind_long_dp_y = do
    dp ← fetch816 bus
    dp_io bus
    ptr ← read_dp_long_wrap bus dp
    r ← regs
    pure (plain ((ptr + y_idx r) % 0x1000000), 5 + dl_penalty r)

  unfoldable pub am_stack_rel : Mode W
  am_stack_rel = do sr ← fetch816 bus; io_pc1 bus; r ← regs; pure (in_bank0 (u16 (sp16 r + sr)), 3)

  unfoldable pub am_stack_rel_ind_y : Mode W
  am_stack_rel_ind_y = do
    sr ← fetch816 bus
    io_pc1 bus
    r ← regs
    let p = u16 (sp16 r + sr)
    lo ← read_data bus p
    hi ← read_data bus (u16 (p + 1))
    pin_none
    _ ← read24 bus (u16 (p + 1))
    pure (plain ((banked r.dbr (word lo hi) + y_idx r) % 0x1000000), 6)

  -- `c.amDPIdx(c.Xidx())` and its like: Go evaluates the argument before the call.
  unfoldable pub am_dp_x : Mode W
  am_dp_x = do r ← regs; am_dp_idx (x_idx r)

  unfoldable pub am_dp_y : Mode W
  am_dp_y = do r ← regs; am_dp_idx (y_idx r)

  unfoldable pub am_abs_x : Mode W
  am_abs_x = do r ← regs; am_abs_idx (x_idx r)

  unfoldable pub am_abs_y : Mode W
  am_abs_y = do r ← regs; am_abs_idx (y_idx r)
