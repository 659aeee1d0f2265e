-- ===== src/W65816/Transfer.antt =====
-- The register helpers of cpu/exec816.go, and the bodies of the switch of step816 that work on
-- the registers alone.
use chippy.Prelude.{
  ℕ, ◌+◌, Bool, true, false, bit_and, bit_or, word, u8, u16, hi_byte, and_not8, ◌==◌, if◌then◌else◌,
}
use chippy.Cpu.Flags.{flag_c, flag_z}
use chippy.W65816.State.{Regs}
use chippy.W65816.Width.{
  has_flag, set_flag, set_zn, set_zn16, m_wide, x_wide, a16, sp16, lock_widths,
}
use chippy.W65816.Alu.{put_a16, put_a}

-- The pointers `&c.X, &c.XH` and `&c.Y, &c.YH`.
pub data Index : Type 0 where
  index_x index_y : Index

unfoldable pub index_lo : Index → Regs → ℕ
index_lo index_x r = r.x
index_lo index_y r = r.y

unfoldable pub index_hi : Index → Regs → ℕ
index_hi index_x r = r.xh
index_hi index_y r = r.yh

unfoldable pub set_index : Index → ℕ → Regs → Regs
set_index index_x v r = record r { x = u8 v; xh = hi_byte v }
set_index index_y v r = record r { y = u8 v; yh = hi_byte v }

unfoldable pub set_index_lo : Index → ℕ → Regs → Regs
set_index_lo index_x v r = record r { x = v }
set_index_lo index_y v r = record r { y = v }

unfoldable pub index16 : Index → Regs → ℕ
unfolding index_lo index_hi
index16 i r = word (index_lo i r) (index_hi i r)

-- The index register at 16 or 8 bits, with N and Z.
unfoldable pub put_index16 : Index → ℕ → Regs → Regs
unfolding set_index
put_index16 i v r = set_zn16 v (set_index i v r)

unfoldable pub put_index8 : Index → ℕ → Regs → Regs
unfolding set_index_lo
put_index8 i v r = set_zn v (set_index_lo i v r)

-- `delta` is 1 or, for -1, 0xFFFF.
unfoldable pub inc_dec_index : Index → ℕ → Regs → Regs
inc_dec_index i delta r =
    if x_wide r
    then put_index16 i (u16 (index16 i r + delta)) r
    else put_index8 i (u8 (index_lo i r + delta)) r

unfoldable pub inc_dec_acc : ℕ → Regs → Regs
inc_dec_acc delta r =
    if m_wide r then put_a16 (u16 (a16 r + delta)) r else put_a (u8 (r.a + delta)) r

unfoldable pub transfer_to_index : Index → ℕ → ℕ → Regs → Regs
transfer_to_index i slo shi r =
    if x_wide r then put_index16 i (word slo shi) r else put_index8 i slo r

unfoldable pub transfer_to_acc : ℕ → ℕ → Regs → Regs
transfer_to_acc slo shi r = if m_wide r then put_a16 (word slo shi) r else put_a slo r

unfoldable pub load_index : Index → ℕ → Regs → Regs
load_index i v r = if x_wide r then put_index16 i v r else put_index8 i (u8 v) r

unfoldable pub mask_for : Bool → ℕ
mask_for true = 0xFFFF
mask_for false = 0xFF

-- BIT #
unfoldable pub bit_imm : ℕ → Regs → Regs
bit_imm v r = set_flag flag_z (bit_and (bit_and (a16 r) (mask_for (m_wide r))) v == 0) r

unfoldable pub txs : Regs → Regs
txs r = record r { sp = r.x; sp_hi = if r.e then 1 else r.xh }

unfoldable pub tcs : Regs → Regs
tcs r = record r { sp = r.a; sp_hi = if r.e then 1 else r.b }

unfoldable pub tcd : Regs → Regs
tcd r = set_zn16 (a16 r) (record r { d = a16 r })

unfoldable pub tdc : Regs → Regs
tdc r = put_a16 r.d r

unfoldable pub tsc : Regs → Regs
tsc r = put_a16 (sp16 r) r

unfoldable pub xba : Regs → Regs
xba r = set_zn r.b (record r { a = r.b; b = r.a })

unfoldable pub xce : Regs → Regs
xce r =
    let old_carry = has_flag flag_c r in
    let r1 = record (set_flag flag_c r.e r) { e = old_carry } in
    if old_carry then lock_widths (record r1 { sp_hi = 1; xh = 0; yh = 0 }) else r1

-- `c.P |= mask` of SEP, before applyWidthTruncation, and REP.
unfoldable pub sep_mask : ℕ → Regs → Regs
sep_mask mask r = record r { p = bit_or r.p mask }

unfoldable pub rep_mask : ℕ → Regs → Regs
rep_mask mask r = let r1 = record r { p = and_not8 r.p mask } in if r.e then lock_widths r1 else r1
