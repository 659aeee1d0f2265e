-- ===== src/W65816/Width.antt =====
-- The widths and the 16-bit registers of cpu/cpu816.go, and the flags of cpu/cpu.go on them.
use chippy.Prelude.{
  ℕ, word, Bool, true, not, ◌&&◌, u8, hi_byte, nonzero, bit_and, ◌==◌, if◌then◌else◌,
}
use chippy.Cpu.Flags.{flag_b, flag_u, flag_z, flag_n, with_flag}
use chippy.W65816.State.{Regs}

abbrev pub flag_m : ℕ
flag_m = flag_u

abbrev pub flag_x : ℕ
flag_x = flag_b

unfoldable pub has_flag : ℕ → Regs → Bool
has_flag f r = nonzero (bit_and r.p f)

unfoldable pub set_flag : ℕ → Bool → Regs → Regs
set_flag f on r = record r { p = with_flag f on r.p }

unfoldable pub set_zn : ℕ → Regs → Regs
unfolding set_flag
set_zn v r = set_flag flag_n (nonzero (bit_and v 0x80)) (set_flag flag_z (v == 0) r)

unfoldable pub set_zn16 : ℕ → Regs → Regs
unfolding set_flag
set_zn16 v r = set_flag flag_n (nonzero (bit_and v 0x8000)) (set_flag flag_z (v == 0) r)

-- `!c.E && c.P&FlagM == 0`
unfoldable pub m_wide : Regs → Bool
m_wide r = not r.e && (bit_and r.p flag_m == 0)

unfoldable pub x_wide : Regs → Bool
x_wide r = not r.e && (bit_and r.p flag_x == 0)

unfoldable pub a16 : Regs → ℕ
a16 r = word r.a r.b

unfoldable pub x16 : Regs → ℕ
x16 r = word r.x r.xh

unfoldable pub y16 : Regs → ℕ
y16 r = word r.y r.yh

unfoldable pub sp16 : Regs → ℕ
sp16 r = word r.sp r.sp_hi

unfoldable pub set_a16 : ℕ → Regs → Regs
set_a16 v r = record r { a = u8 v; b = hi_byte v }

unfoldable pub set_x16 : ℕ → Regs → Regs
set_x16 v r = record r { x = u8 v; xh = hi_byte v }

unfoldable pub set_y16 : ℕ → Regs → Regs
set_y16 v r = record r { y = u8 v; yh = hi_byte v }

unfoldable pub set_sp16 : ℕ → Regs → Regs
set_sp16 v r = record r { sp = u8 v; sp_hi = if r.e then 1 else hi_byte v }

unfoldable pub x_idx : Regs → ℕ
x_idx r = if x_wide r then x16 r else r.x

unfoldable pub y_idx : Regs → ℕ
y_idx r = if x_wide r then y16 r else r.y

-- `c.P |= FlagM | FlagX`
unfoldable pub lock_widths : Regs → Regs
unfolding set_flag
lock_widths r = set_flag flag_x true (set_flag flag_m true r)
