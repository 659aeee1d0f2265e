-- ===== src/W65816/Counted/Sums.antt =====
-- ADC, SBC, the index loads and the RMW kernels keep the widths.
use chippy.Prelude.{ℕ, Bool, true, false, refl, if◌then◌else◌}
use chippy.Cpu.Flags.{flag_c, flag_d}
use chippy.W65816.State.{Regs}
use chippy.W65816.Width.{has_flag, m_wide, x_wide, set_flag, set_zn, set_zn16}
use chippy.W65816.Alu.{put_a16, put_a, add_wide, add_narrow, adc816, sbc816}
use chippy.W65816.Decimal.{adc_decimal816, sbc_decimal816}
use chippy.W65816.Transfer.{
  Index, index_x, index_y, set_index, set_index_lo, put_index16, put_index8, load_index,
}
use chippy.W65816.Kernels.{Rmw, rmw_asl, rmw_lsr, rmw_rol, rmw_ror, rmw_inc, rmw_dec, tsb, trb}
use chippy.W65816.Modes.{dl_set}
use chippy.W65816.Counted.Rules.{Same, Same-trans, Steady, Kept-Same}
use chippy.W65816.Kept.{Kept, Kept-trans, Calm}
use chippy.W65816.Counted.Calm.{
  set_zn-Kept, set_zn16-Kept, put_a16-Kept, put_a-Kept, choose-Kept, vc-Kept, cv-Kept, flag_c-Kept,
  flag_z-Kept,
}

add_wide-Kept : (w carry : ℕ) (r : Regs) → Kept (add_wide w carry r) r
unfolding add_wide
add_wide-Kept w carry r = Kept-trans (put_a16-Kept _ _) (vc-Kept _ _ r)

add_narrow-Kept : (w carry : ℕ) (r : Regs) → Kept (add_narrow w carry r) r
unfolding add_narrow
add_narrow-Kept w carry r = Kept-trans (put_a-Kept _ _) (vc-Kept _ _ r)

adc_decimal816-Kept :
    (v carry : ℕ) (wide : Bool) (r : Regs) → Kept (adc_decimal816 v carry wide r) r
unfolding adc_decimal816 put_a16 put_a
adc_decimal816-Kept v carry true r = Kept-trans (put_a16-Kept _ _) (cv-Kept _ _ r)
adc_decimal816-Kept v carry false r = Kept-trans (put_a-Kept _ _) (cv-Kept _ _ r)

sbc_decimal816-Kept :
    (v carry : ℕ) (wide : Bool) (r : Regs) → Kept (sbc_decimal816 v carry wide r) r
unfolding sbc_decimal816 put_a16 put_a
sbc_decimal816-Kept v carry true r = Kept-trans (put_a16-Kept _ _) (vc-Kept _ _ r)
sbc_decimal816-Kept v carry false r = Kept-trans (put_a-Kept _ _) (vc-Kept _ _ r)

pub adc816-Calm : (v : ℕ) → Calm (adc816 v)
unfolding adc816
adc816-Calm v r =
    choose-Kept (has_flag flag_d r) (adc_decimal816-Kept v _ _ r)
      (choose-Kept (m_wide r) (add_wide-Kept v _ r) (add_narrow-Kept _ _ r))

pub sbc816-Calm : (v : ℕ) → Calm (sbc816 v)
unfolding sbc816
sbc816-Calm v r =
    choose-Kept (has_flag flag_d r) (sbc_decimal816-Kept v _ _ r)
      (choose-Kept (m_wide r) (add_wide-Kept _ _ r) (add_narrow-Kept _ _ r))

index-Same : (x xh y yh : ℕ) (r : Regs) → Same (record r { x = x; xh = xh; y = y; yh = yh }) r
unfolding dl_set m_wide x_wide
index-Same x xh y yh r = record { dl = refl; m = refl; x = refl; e = refl }

choose-Same : (b : Bool) {r r1 r2 : Regs} → Same r1 r → Same r2 r → Same (if b then r1 else r2) r
choose-Same true h j = h
choose-Same false h j = j

set_index-Same : (i : Index) (v : ℕ) (r : Regs) → Same (set_index i v r) r
unfolding set_index
set_index-Same index_x v r = index-Same _ _ r.y r.yh r
set_index-Same index_y v r = index-Same r.x r.xh _ _ r

set_index_lo-Same : (i : Index) (v : ℕ) (r : Regs) → Same (set_index_lo i v r) r
unfolding set_index_lo
set_index_lo-Same index_x v r = index-Same v r.xh r.y r.yh r
set_index_lo-Same index_y v r = index-Same r.x r.xh v r.yh r

pub put_index16-Steady : (i : Index) (v : ℕ) → Steady (put_index16 i v)
unfolding put_index16
put_index16-Steady i v r = Same-trans (Kept-Same (set_zn16-Kept v _)) (set_index-Same i v r)

pub put_index8-Steady : (i : Index) (v : ℕ) → Steady (put_index8 i v)
unfolding put_index8
put_index8-Steady i v r = Same-trans (Kept-Same (set_zn-Kept v _)) (set_index_lo-Same i v r)

pub load_index-Steady : (i : Index) (v : ℕ) → Steady (load_index i v)
unfolding load_index
load_index-Steady i v r =
    choose-Same (x_wide r) (put_index16-Steady i v r) (put_index8-Steady i _ r)

-- A kernel that keeps the widths.
abbrev pub CalmRmw : Rmw → Type 0
CalmRmw fn = (v : ℕ) (wide : Bool) → Calm (λ r. (fn v wide r).1)

shift16-Kept : (c : Bool) (v : ℕ) (r : Regs) → Kept (set_zn16 v (set_flag flag_c c r)) r
shift16-Kept c v r = Kept-trans (set_zn16-Kept v _) (flag_c-Kept c r)

shift8-Kept : (c : Bool) (v : ℕ) (r : Regs) → Kept (set_zn v (set_flag flag_c c r)) r
shift8-Kept c v r = Kept-trans (set_zn-Kept v _) (flag_c-Kept c r)

pub rmw_asl-CalmRmw : CalmRmw rmw_asl
unfolding rmw_asl
rmw_asl-CalmRmw v true r = shift16-Kept _ _ r
rmw_asl-CalmRmw v false r = shift8-Kept _ _ r

pub rmw_lsr-CalmRmw : CalmRmw rmw_lsr
unfolding rmw_lsr
rmw_lsr-CalmRmw v true r = shift16-Kept _ _ r
rmw_lsr-CalmRmw v false r = shift8-Kept _ _ r

pub rmw_rol-CalmRmw : CalmRmw rmw_rol
unfolding rmw_rol
rmw_rol-CalmRmw v true r = shift16-Kept _ _ r
rmw_rol-CalmRmw v false r = shift8-Kept _ _ r

pub rmw_ror-CalmRmw : CalmRmw rmw_ror
unfolding rmw_ror
rmw_ror-CalmRmw v true r = shift16-Kept _ _ r
rmw_ror-CalmRmw v false r = shift8-Kept _ _ r

pub rmw_inc-CalmRmw : CalmRmw rmw_inc
unfolding rmw_inc
rmw_inc-CalmRmw v true r = set_zn16-Kept _ r
rmw_inc-CalmRmw v false r = set_zn-Kept _ r

pub rmw_dec-CalmRmw : CalmRmw rmw_dec
unfolding rmw_dec
rmw_dec-CalmRmw v true r = set_zn16-Kept _ r
rmw_dec-CalmRmw v false r = set_zn-Kept _ r

pub tsb-CalmRmw : CalmRmw tsb
unfolding tsb
tsb-CalmRmw v true r = flag_z-Kept _ r
tsb-CalmRmw v false r = flag_z-Kept _ r

pub trb-CalmRmw : CalmRmw trb
unfolding trb
trb-CalmRmw v true r = flag_z-Kept _ r
trb-CalmRmw v false r = flag_z-Kept _ r

pub ruleset sum_rules = (
  adc816-Calm, sbc816-Calm, rmw_asl-CalmRmw, rmw_lsr-CalmRmw, rmw_rol-CalmRmw, rmw_ror-CalmRmw,
  rmw_inc-CalmRmw, rmw_dec-CalmRmw, tsb-CalmRmw, trb-CalmRmw,
)

pub ruleset index_rules = (put_index16-Steady, put_index8-Steady, load_index-Steady)
