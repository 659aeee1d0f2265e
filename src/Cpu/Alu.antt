-- ===== src/Cpu/Alu.antt =====
-- The arithmetic of cpu/exec.go and cpu/opcodes_cmos.go on the accumulator and the flags.
-- Where the source computes on `int`, so does the model: `int_sub` wraps at 64 bits.
pub mod Flags
pub mod Binary
pub mod Difference
pub mod Decimal
pub mod DecimalDifference
use chippy.Prelude.{
  ℕ, ◌+◌, ◌-◌, Bool, bit_and, bit_xor, u8, u16, nonzero, and_not16, int_sub, int_add, int_neg, ltb,
  leb, ◌==◌, if◌then◌else◌,
}
use chippy.Cpu.State.{Regs}
use chippy.Cpu.Flags.{flag_c, flag_z, flag_n, flag_v, set_flag, has_flag, set_zn}

-- `carry := uint16(0); if c.hasFlag(FlagC) { carry = 1 }`
unfoldable pub carry_in : Regs → ℕ
unfolding has_flag
carry_in r = if has_flag flag_c r then 1 else 0

-- `(^(uint16(a)^uint16(v)) & (uint16(a)^sum)) & 0x80 != 0`
unfoldable pub overflow_bit : ℕ → ℕ → ℕ → Bool
overflow_bit a v sum =
    nonzero (bit_and (bit_and (bit_xor (bit_xor a v) 0xFFFF) (bit_xor a sum)) 0x80)

-- The binary tail of opADC, also of opISC and opRRA.
unfoldable pub add_binary : ℕ → ℕ → Regs → Regs
unfolding set_flag set_zn overflow_bit
add_binary v carry r =
    let sum = u16 (r.a + v + carry) in
    let r' = set_flag flag_v (overflow_bit r.a v sum) (set_flag flag_c (ltb 0xFF sum) r) in
    set_zn (u8 sum) (record r' { a = u8 sum })

-- The binary tail of opSBC.
unfoldable pub sub_binary : ℕ → ℕ → Regs → Regs
unfolding add_binary
sub_binary v carry r = add_binary (bit_xor v 0xFF) carry r

-- The low digit with its carry into the high one.
unfoldable pub low_digit_sum : ℕ → ℕ → ℕ → ℕ
low_digit_sum a v carry =
    let al = u16 (bit_and a 0x0F + bit_and v 0x0F + carry) in
    if leb 0x0A al then bit_and (u16 (al + 0x06)) 0x0F + 0x10 else al

unfoldable pub high_digit_sum : ℕ → ℕ → ℕ → ℕ
unfolding low_digit_sum
high_digit_sum a v carry = u16 (bit_and a 0xF0 + bit_and v 0xF0 + low_digit_sum a v carry)

-- `if ah >= 0xA0 { ah += 0x60 }`
unfoldable pub high_digit_fixup : ℕ → ℕ
high_digit_fixup ah = if leb 0xA0 ah then u16 (ah + 0x60) else ah

unfoldable pub adc_decimal : ℕ → ℕ → Regs → Regs
unfolding set_flag high_digit_sum high_digit_fixup and_not16
adc_decimal v carry r =
    let a = r.a in
    let ah = high_digit_sum a v carry in
    let r1 = set_flag flag_n (nonzero (bit_and ah 0x80)) r in
    let over = nonzero (bit_and (and_not16 (bit_xor a ah) (bit_xor a v)) 0x80) in
    let r2 = set_flag flag_v over r1 in
    let bin = u8 (u16 (a + v + carry)) in
    let r3 = set_flag flag_z (bin == 0) r2 in
    let sum = high_digit_fixup ah in
    let r4 = set_flag flag_c (leb 0x100 sum) r3 in record r4 { a = u8 (bit_and sum 0xFF) }

-- The decimal difference as an `int`.
unfoldable pub decimal_diff : ℕ → ℕ → ℕ → ℕ
decimal_diff a v carry =
    let al = int_sub (int_add (int_sub (bit_and a 0x0F) (bit_and v 0x0F)) carry) 1 in
    let low = if int_neg al then int_sub (bit_and (int_sub al 0x06) 0x0F) 0x10 else al in
    let res = int_add (int_sub (bit_and a 0xF0) (bit_and v 0xF0)) low in
    if int_neg res then int_sub res 0x60 else res

unfoldable pub sbc_decimal : ℕ → ℕ → Regs → Regs
unfolding set_flag overflow_bit decimal_diff
sbc_decimal v carry r =
    let a = r.a in
    let res = decimal_diff a v carry in
    let w = bit_xor v 0xFF in
    let sum = u16 (a + w + carry) in
    let r1 = set_flag flag_c (ltb 0xFF sum) r in
    let r2 = set_flag flag_v (overflow_bit a w sum) r1 in
    let r3 = set_flag flag_n (nonzero (bit_and sum 0x80)) r2 in
    let r4 = set_flag flag_z (u8 sum == 0) r3 in record r4 { a = u8 (bit_and res 0xFF) }

-- The part of adcDecimalCMOS and sbcDecimalCMOS that changes registers; the extra cycle is
-- added by the callers.
unfoldable pub adc_decimal_cmos : ℕ → ℕ → Regs → Regs
unfolding set_flag set_zn high_digit_sum high_digit_fixup and_not16
adc_decimal_cmos v carry r =
    let a = r.a in
    let res = high_digit_sum a v carry in
    let over = nonzero (bit_and (and_not16 (bit_xor a res) (bit_xor a v)) 0x80) in
    let r1 = set_flag flag_v over r in
    let sum = high_digit_fixup res in
    let r2 = set_flag flag_c (leb 0x100 sum) r1 in
    let v' = u8 (bit_and sum 0xFF) in set_zn v' (record r2 { a = v' })

unfoldable pub sbc_decimal_cmos : ℕ → ℕ → Regs → Regs
unfolding set_flag set_zn overflow_bit decimal_diff
sbc_decimal_cmos v carry r =
    let a = r.a in
    let res = decimal_diff a v carry in
    let w = bit_xor v 0xFF in
    let sum = u16 (a + w + carry) in
    let r1 = set_flag flag_c (ltb 0xFF sum) r in
    let r2 = set_flag flag_v (overflow_bit a w sum) r1 in
    let v' = u8 (bit_and res 0xFF) in set_zn v' (record r2 { a = v' })

-- `cmp`: the flags of a comparison.
unfoldable pub compare_flags : ℕ → ℕ → Regs → Regs
unfolding set_flag
compare_flags reg v r =
    let r1 = set_flag flag_c (leb v reg) r in
    let r2 = set_flag flag_z (reg == v) r1 in
    set_flag flag_n (nonzero (bit_and (u8 (reg + 256 - v)) 0x80)) r2
