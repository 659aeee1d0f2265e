-- ===== src/W65816/Counted/Calm.antt =====
-- The operations on registers that keep the widths, E and the direct-page penalty.
use chippy.Prelude.{
  ℕ, ◌≡◌, Bool, true, false, refl, arith, bit_xor, digit, digit-lt, digit-bit_and, digit-bit_or,
  if◌then◌else◌, and_not8,
}
use chippy.Cpu.Flags.{with_flag, flag_i, flag_d, flag_c, flag_z, flag_v, flag_n}
use chippy.W65816.State.{Regs}
use chippy.W65816.Width.{set_flag, set_zn, set_zn16, set_a16, m_wide}
use chippy.W65816.Alu.{
  put_a16, put_a, ora_v, and_v, eor_v, load_acc, logic_acc, compare_regs, cmp_acc_v, bit_v,
}
use chippy.W65816.Transfer.{bit_imm}
use chippy.W65816.Cases.{cmp_x, cmp_y}
use chippy.W65816.Kept.{Kept, Kept-trans, Calm}

-- The flag leaves digit `k` of P alone.
pub record Spares (k f : ℕ) : Type 0 where
  pub set : digit k f ≡ 0
  pub clear : digit k (bit_xor f 0xFF) ≡ 1

pub with_flag-digit :
    (k f : ℕ) (on : Bool) (p : ℕ) → Spares k f → digit k (with_flag f on p) ≡ digit k p
unfolding with_flag and_not8
with_flag-digit k f true p h = omega (arith, h.set, digit-bit_or k p f)
with_flag-digit k f false p h =
    omega (arith, h.clear, digit-lt k p, digit-bit_and k p (bit_xor f 0xFF))

set_flag-Kept : (f : ℕ) (on : Bool) (r : Regs) → Spares 4 f → Spares 5 f → Kept (set_flag f on r) r
unfolding set_flag
set_flag-Kept f on r h4 h5 = record {
  d = refl;
  e = refl;
  m_bit = with_flag-digit 5 f on r.p h5;
  x_bit = with_flag-digit 4 f on r.p h4;
  sp_hi = refl;
  xh = refl;
  yh = refl;
}

pub flag_c-Kept : (on : Bool) (r : Regs) → Kept (set_flag flag_c on r) r
unfolding digit
flag_c-Kept on r =
    set_flag-Kept flag_c on r (record { set = refl; clear = refl })
      (record { set = refl; clear = refl })

pub flag_z-Kept : (on : Bool) (r : Regs) → Kept (set_flag flag_z on r) r
unfolding digit
flag_z-Kept on r =
    set_flag-Kept flag_z on r (record { set = refl; clear = refl })
      (record { set = refl; clear = refl })

pub flag_v-Kept : (on : Bool) (r : Regs) → Kept (set_flag flag_v on r) r
unfolding digit
flag_v-Kept on r =
    set_flag-Kept flag_v on r (record { set = refl; clear = refl })
      (record { set = refl; clear = refl })

flag_n-Kept : (on : Bool) (r : Regs) → Kept (set_flag flag_n on r) r
unfolding digit
flag_n-Kept on r =
    set_flag-Kept flag_n on r (record { set = refl; clear = refl })
      (record { set = refl; clear = refl })

pub flag_i-Kept : (on : Bool) (r : Regs) → Kept (set_flag flag_i on r) r
unfolding digit
flag_i-Kept on r =
    set_flag-Kept flag_i on r (record { set = refl; clear = refl })
      (record { set = refl; clear = refl })

pub flag_d-Kept : (on : Bool) (r : Regs) → Kept (set_flag flag_d on r) r
unfolding digit
flag_d-Kept on r =
    set_flag-Kept flag_d on r (record { set = refl; clear = refl })
      (record { set = refl; clear = refl })

pub set_zn-Kept : (v : ℕ) (r : Regs) → Kept (set_zn v r) r
unfolding set_zn
set_zn-Kept v r = Kept-trans (flag_n-Kept _ _) (flag_z-Kept _ r)

pub set_zn16-Kept : (v : ℕ) (r : Regs) → Kept (set_zn16 v r) r
unfolding set_zn16
set_zn16-Kept v r = Kept-trans (flag_n-Kept _ _) (flag_z-Kept _ r)

-- The accumulator.
pub acc-Kept : (a b : ℕ) (r : Regs) → Kept (record r { a = a; b = b }) r
acc-Kept a b r = record {
  d = refl;
  e = refl;
  m_bit = refl;
  x_bit = refl;
  sp_hi = refl;
  xh = refl;
  yh = refl;
}

pub put_a16-Kept : (v : ℕ) (r : Regs) → Kept (put_a16 v r) r
unfolding put_a16 set_a16
put_a16-Kept v r = Kept-trans (set_zn16-Kept v _) (acc-Kept _ _ r)

pub put_a-Kept : (v : ℕ) (r : Regs) → Kept (put_a v r) r
unfolding put_a
put_a-Kept v r = Kept-trans (set_zn-Kept v _) (acc-Kept v r.b r)

-- The operations that put one of two values, by a test.
pub choose-Kept :
    (b : Bool) {r r1 r2 : Regs} → Kept r1 r → Kept r2 r → Kept (if b then r1 else r2) r
choose-Kept true h j = h
choose-Kept false h j = j

pub chosen-Kept : (b : Bool) (v w : ℕ) (r : Regs) → Kept (if b then put_a16 v r else put_a w r) r
chosen-Kept b v w r = choose-Kept b (put_a16-Kept v r) (put_a-Kept w r)

pub ora_v-Calm : (v : ℕ) → Calm (ora_v v)
unfolding ora_v
ora_v-Calm v r = chosen-Kept (m_wide r) _ _ r

pub and_v-Calm : (v : ℕ) → Calm (and_v v)
unfolding and_v
and_v-Calm v r = chosen-Kept (m_wide r) _ _ r

pub eor_v-Calm : (v : ℕ) → Calm (eor_v v)
unfolding eor_v
eor_v-Calm v r = chosen-Kept (m_wide r) _ _ r

pub load_acc-Calm : (v : ℕ) → Calm (load_acc v)
unfolding load_acc
load_acc-Calm v r = chosen-Kept (m_wide r) _ _ r

pub logic_acc-Calm : (fn : ℕ → ℕ) → Calm (logic_acc fn)
unfolding logic_acc
logic_acc-Calm fn r = chosen-Kept (m_wide r) _ _ r

-- N, Z and C, in the order of a comparison; Z, V and N, in that of BIT.
nzc-Kept :
    (n z c : Bool) (r : Regs) → Kept (set_flag flag_n n (set_flag flag_z z (set_flag flag_c c r))) r
nzc-Kept n z c r = Kept-trans (flag_n-Kept n _) (Kept-trans (flag_z-Kept z _) (flag_c-Kept c r))

zvn-Kept :
    (z v n : Bool) (r : Regs) → Kept (set_flag flag_z z (set_flag flag_v v (set_flag flag_n n r))) r
zvn-Kept z v n r = Kept-trans (flag_z-Kept z _) (Kept-trans (flag_v-Kept v _) (flag_n-Kept n r))

compare_regs-Kept : (a b : ℕ) (wide : Bool) (r : Regs) → Kept (compare_regs a b wide r) r
unfolding compare_regs
compare_regs-Kept a b true r = nzc-Kept _ _ _ r
compare_regs-Kept a b false r = nzc-Kept _ _ _ r

pub cmp_acc_v-Calm : (v : ℕ) → Calm (cmp_acc_v v)
unfolding cmp_acc_v
cmp_acc_v-Calm v r = compare_regs-Kept _ v _ r

pub cmp_x-Calm : (v : ℕ) → Calm (cmp_x v)
cmp_x-Calm v r = compare_regs-Kept _ v _ r

pub cmp_y-Calm : (v : ℕ) → Calm (cmp_y v)
cmp_y-Calm v r = compare_regs-Kept _ v _ r

pub bit_v-Calm : (v : ℕ) → Calm (bit_v v)
unfolding bit_v
bit_v-Calm v r = choose-Kept (m_wide r) (zvn-Kept _ _ _ r) (zvn-Kept _ _ _ r)

pub bit_imm-Calm : (v : ℕ) → Calm (bit_imm v)
unfolding bit_imm
bit_imm-Calm v r = flag_z-Kept _ r

pub vc-Kept : (v c : Bool) (r : Regs) → Kept (set_flag flag_v v (set_flag flag_c c r)) r
vc-Kept v c r = Kept-trans (flag_v-Kept v _) (flag_c-Kept c r)

pub cv-Kept : (c v : Bool) (r : Regs) → Kept (set_flag flag_c c (set_flag flag_v v r)) r
cv-Kept c v r = Kept-trans (flag_c-Kept c _) (flag_v-Kept v r)

pub ruleset calm_rules = (
  flag_c-Kept, flag_i-Kept, flag_d-Kept, flag_v-Kept, set_zn-Kept, set_zn16-Kept, put_a16-Kept,
  put_a-Kept, ora_v-Calm, and_v-Calm, eor_v-Calm, load_acc-Calm, logic_acc-Calm, cmp_acc_v-Calm,
  cmp_x-Calm, cmp_y-Calm, bit_v-Calm, bit_imm-Calm,
)
