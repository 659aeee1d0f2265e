-- ===== src/W65816/Decimal.antt =====
-- adcDecimal816 and sbcDecimal816 of cpu/arith816.go.
use chippy.Prelude.{
  ℕ, ◌+◌, Bool, true, false, bit_and, bit_xor, u8, u16, nonzero, int_sub, int_add, int_neg, ltb,
  leb, if◌then◌else◌,
}
use chippy.Cpu.Flags.{flag_c, flag_v}
use chippy.Cpu.Alu.{decimal_diff, overflow_bit}
use chippy.W65816.State.{Regs}
use chippy.W65816.Width.{set_flag, set_zn, set_zn16, a16, set_a16}

-- `(^(a^v)&(a^sum))&0x8000 != 0` on `uint32`: the bits below the mask of the complement are
-- those of the complement at `uint16`.
unfoldable pub overflow_bit16 : ℕ → ℕ → ℕ → Bool
overflow_bit16 a v sum =
    nonzero (bit_and (bit_and (bit_xor (bit_xor a v) 0xFFFFFFFF) (bit_xor a sum)) 0x8000)

-- `((a^res)&^(a^v))&m != 0` on `uint32`
unfoldable pub decimal_overflow : ℕ → ℕ → ℕ → ℕ → Bool
decimal_overflow m a v res =
    nonzero (bit_and (bit_and (bit_xor a res) (bit_xor (bit_xor a v) 0xFFFFFFFF)) m)

-- The first digit, then one more.
unfoldable pub digits1 : ℕ → ℕ → ℕ → ℕ
digits1 a v carry =
    let res = bit_and a 0x0F + bit_and v 0x0F + carry in
    if leb 0x0A res then bit_and (res + 0x06) 0x0F + 0x10 else res

unfoldable pub digits2 : ℕ → ℕ → ℕ → ℕ
unfolding digits1
digits2 a v carry = bit_and a 0xF0 + bit_and v 0xF0 + digits1 a v carry

unfoldable pub digits3 : ℕ → ℕ → ℕ → ℕ
unfolding digits2
digits3 a v carry =
    let res = digits2 a v carry in
    let fixed = if leb 0xA0 res then bit_and (res + 0x60) 0xFF + 0x100 else res in
    bit_and a 0xF00 + bit_and v 0xF00 + fixed

unfoldable pub digits4 : ℕ → ℕ → ℕ → ℕ
unfolding digits3
digits4 a v carry =
    let res = digits3 a v carry in
    let fixed = if leb 0xA00 res then bit_and (res + 0x600) 0xFFF + 0x1000 else res in
    bit_and a 0xF000 + bit_and v 0xF000 + fixed

unfoldable pub adc_decimal816 : ℕ → ℕ → Bool → Regs → Regs
unfolding set_flag set_zn set_zn16 set_a16 digits2 digits4 decimal_overflow
adc_decimal816 v carry true r =
    let a = a16 r in
    let res = digits4 a v carry in
    let r1 = set_flag flag_v (decimal_overflow 0x8000 a v res) r in
    let sum = if leb 0xA000 res then res + 0x6000 else res in
    let r2 = set_flag flag_c (leb 0x10000 sum) r1 in set_zn16 (u16 sum) (set_a16 (u16 sum) r2)
adc_decimal816 v carry false r =
    let a = r.a in
    let res = digits2 a v carry in
    let r1 = set_flag flag_v (decimal_overflow 0x80 a v res) r in
    let sum = if leb 0xA0 res then res + 0x60 else res in
    let r2 = set_flag flag_c (leb 0x100 sum) r1 in set_zn (u8 sum) (record r2 { a = u8 sum })

-- `(al & mask) - borrow`, once `al - six` went below 0; `int`s.
unfoldable pub borrow_digit : ℕ → ℕ → ℕ → ℕ → ℕ
borrow_digit al six mask borrow =
    if int_neg al then int_sub (bit_and (int_sub al six) mask) borrow else al

unfoldable pub diff_digit : ℕ → ℕ → ℕ → ℕ → ℕ
diff_digit a v mask al = int_add (int_sub (bit_and a mask) (bit_and v mask)) al

-- The 16-bit decimal difference as an `int`.
unfoldable pub decimal_diff16 : ℕ → ℕ → ℕ → ℕ
unfolding borrow_digit diff_digit
decimal_diff16 a v carry =
    let al1 = int_sub (int_add (int_sub (bit_and a 0x0F) (bit_and v 0x0F)) carry) 1 in
    let al2 = diff_digit a v 0xF0 (borrow_digit al1 0x06 0x0F 0x10) in
    let al3 = diff_digit a v 0xF00 (borrow_digit al2 0x60 0xFF 0x100) in
    let al4 = diff_digit a v 0xF000 (borrow_digit al3 0x600 0xFFF 0x1000) in
    if int_neg al4 then int_sub al4 0x6000 else al4

unfoldable pub sbc_decimal816 : ℕ → ℕ → Bool → Regs → Regs
unfolding set_flag set_zn set_zn16 set_a16 decimal_diff16 overflow_bit16
sbc_decimal816 v carry true r =
    let a = a16 r in
    let al = decimal_diff16 a v carry in
    let w = bit_xor v 0xFFFF in
    let sum = a + w + carry in
    let r1 = set_flag flag_c (ltb 0xFFFF sum) r in
    let r2 = set_flag flag_v (overflow_bit16 a w sum) r1 in set_zn16 (u16 al) (set_a16 (u16 al) r2)
sbc_decimal816 v carry false r =
    let a = r.a in
    let res = decimal_diff a (bit_and v 0xFF) carry in
    let w = bit_and (bit_xor (u16 v) 0xFF) 0xFF in
    let sum = u16 (a + w + carry) in
    let r1 = set_flag flag_c (ltb 0xFF sum) r in
    let r2 = set_flag flag_v (overflow_bit a w sum) r1 in set_zn (u8 res) (record r2 { a = u8 res })
