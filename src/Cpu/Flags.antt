-- ===== src/Cpu/Flags.antt =====
-- The status flags of cpu/cpu.go.
use chippy.Prelude.{ℕ, Bool, bit_and, bit_or, nonzero, and_not8, ◌==◌, if◌then◌else◌}
use chippy.Cpu.State.{Regs}

abbrev pub flag_c : ℕ
flag_c = 1

abbrev pub flag_z : ℕ
flag_z = 2

abbrev pub flag_i : ℕ
flag_i = 4

abbrev pub flag_d : ℕ
flag_d = 8

abbrev pub flag_b : ℕ
flag_b = 16

abbrev pub flag_u : ℕ
flag_u = 32

abbrev pub flag_v : ℕ
flag_v = 64

abbrev pub flag_n : ℕ
flag_n = 128

-- `c.P |= f` or `c.P &^= f`
unfoldable pub with_flag : ℕ → Bool → ℕ → ℕ
unfolding and_not8
with_flag f on p = if on then bit_or p f else and_not8 p f

unfoldable pub set_flag : ℕ → Bool → Regs → Regs
unfolding with_flag
set_flag f on r = record r { p = with_flag f on r.p }

unfoldable pub has_flag : ℕ → Regs → Bool
has_flag f r = nonzero (bit_and r.p f)

unfoldable pub set_zn : ℕ → Regs → Regs
unfolding set_flag
set_zn v r = set_flag flag_n (nonzero (bit_and v 0x80)) (set_flag flag_z (v == 0) r)
