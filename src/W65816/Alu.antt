-- ===== src/W65816/Alu.antt =====
-- The arithmetic of cpu/arith816.go, and the register helpers of cpu/exec816.go.
use chippy.Prelude.{
  ℕ, ◌+◌, ◌-◌, Bool, true, false, bit_and, bit_or, bit_xor, u8, u16, nonzero, ltb, leb, ◌==◌,
  if◌then◌else◌,
}
use chippy.Cpu.Flags.{flag_c, flag_z, flag_d, flag_v, flag_n}
use chippy.Cpu.Alu.{overflow_bit}
use chippy.W65816.State.{Regs}
use chippy.W65816.Width.{has_flag, set_flag, set_zn, set_zn16, m_wide, a16, set_a16}
use chippy.W65816.Decimal.{adc_decimal816, sbc_decimal816, overflow_bit16}

-- `c.setA16(r); c.setZN16(r)` and `c.A = b; c.setZN(c.A)`
unfoldable pub put_a16 : ℕ → Regs → Regs
unfolding set_a16 set_zn16
put_a16 v r = set_zn16 v (set_a16 v r)

unfoldable pub put_a : ℕ → Regs → Regs
unfolding set_zn
put_a v r = set_zn v (record r { a = v })

unfoldable pub ora_v : ℕ → Regs → Regs
unfolding put_a16 put_a
ora_v v r = if m_wide r then put_a16 (bit_or (a16 r) v) r else put_a (bit_or r.a (u8 v)) r

unfoldable pub and_v : ℕ → Regs → Regs
unfolding put_a16 put_a
and_v v r = if m_wide r then put_a16 (bit_and (a16 r) v) r else put_a (bit_and r.a (u8 v)) r

unfoldable pub eor_v : ℕ → Regs → Regs
unfolding put_a16 put_a
eor_v v r = if m_wide r then put_a16 (bit_xor (a16 r) v) r else put_a (bit_xor r.a (u8 v)) r

unfoldable pub load_acc : ℕ → Regs → Regs
unfolding put_a16 put_a
load_acc v r = if m_wide r then put_a16 v r else put_a (u8 v) r

-- `logicAcc`, whose argument works on 16 bits.
unfoldable pub logic_acc : (ℕ → ℕ) → Regs → Regs
unfolding put_a16 put_a
logic_acc fn r = if m_wide r then put_a16 (fn (a16 r)) r else put_a (u8 (fn r.a)) r

unfoldable pub compare_regs : ℕ → ℕ → Bool → Regs → Regs
unfolding set_flag
compare_regs reg val true r =
    let d = u16 (reg + 0x10000 - val) in
    set_flag flag_n (nonzero (bit_and d 0x8000))
      (set_flag flag_z (d == 0) (set_flag flag_c (leb val reg) r))
compare_regs reg val false r =
    let d = u8 (u8 reg + 0x100 - u8 val) in
    set_flag flag_n (nonzero (bit_and d 0x80))
      (set_flag flag_z (d == 0) (set_flag flag_c (leb (u8 val) (u8 reg)) r))

unfoldable pub cmp_acc_v : ℕ → Regs → Regs
unfolding compare_regs
cmp_acc_v v r = compare_regs (a16 r) v (m_wide r) r

unfoldable pub bit_v : ℕ → Regs → Regs
unfolding set_flag
bit_v v r =
    if m_wide r
    then set_flag flag_z (bit_and (a16 r) v == 0) (
        set_flag flag_v (nonzero (bit_and v 0x4000))
          (set_flag flag_n (nonzero (bit_and v 0x8000)) r))
    else set_flag flag_z (bit_and r.a (bit_and v 0xFF) == 0)
        (set_flag flag_v (nonzero (bit_and v 0x40)) (set_flag flag_n (nonzero (bit_and v 0x80)) r))

unfoldable pub carry_in : Regs → ℕ
carry_in r = if has_flag flag_c r then 1 else 0

-- The binary tails of `adc816` and `sbc816`: the sum of A, `w` and the carry. An `int32` sum of
-- two words and a carry does not wrap.
unfoldable pub add_wide : ℕ → ℕ → Regs → Regs
unfolding set_flag put_a16
add_wide w carry r =
    let sum = a16 r + w + carry in
    put_a16 (u16 sum)
      (set_flag flag_v (overflow_bit16 (a16 r) w sum) (set_flag flag_c (ltb 0xFFFF sum) r))

unfoldable pub add_narrow : ℕ → ℕ → Regs → Regs
unfolding set_flag put_a
add_narrow w carry r =
    let sum = u16 (r.a + w + carry) in
    put_a (u8 sum) (set_flag flag_v (overflow_bit r.a w sum) (set_flag flag_c (ltb 0xFF sum) r))

unfoldable pub adc816 : ℕ → Regs → Regs
unfolding add_wide add_narrow adc_decimal816
adc816 v r =
    if has_flag flag_d r
    then adc_decimal816 v (carry_in r) (m_wide r) r
    else if m_wide r
    then add_wide v (carry_in r) r
    else add_narrow (bit_and v 0xFF) (carry_in r) r

unfoldable pub sbc816 : ℕ → Regs → Regs
unfolding add_wide add_narrow sbc_decimal816
sbc816 v r =
    if has_flag flag_d r
    then sbc_decimal816 v (carry_in r) (m_wide r) r
    else if m_wide r
    then add_wide (bit_xor v 0xFFFF) (carry_in r) r
    else add_narrow (bit_and (bit_xor v 0xFF) 0xFF) (carry_in r) r
