-- ===== src/Tests/Arithmetic.antt =====
-- Single additions, subtractions and comparisons, and the IRQ line.
use chippy.Prelude.{
  ◌≡◌, refl, true, List, [], ◌∷◌, ◌+◌, ◌-◌, ◌%◌, ◌==◌, leb, ltb, ◌↔◌, String, arith,
}
use chippy.Cpu.State.{Regs}
use chippy.Cpu.Flags.{has_flag, flag_z, flag_n}
use chippy.Cpu.Alu.{
  carry_in, add_binary, sub_binary, compare_flags, adc_decimal, sbc_decimal, adc_decimal_cmos,
  sbc_decimal_cmos,
}
use chippy.Cpu.Alu.Flags.{HasNvzc}
use chippy.Cpu.Alu.Binary.{HasResult, sum_overflows, difference_overflows, add_binary-adds}
use chippy.Cpu.Alu.Difference.{sub_binary-subtracts, compare_flags-compares}
use chippy.Cpu.Alu.Decimal.{HasDigits, adc_decimal-adds, adc_decimal_cmos-adds}
use chippy.Cpu.Alu.DecimalDifference.{
  SameNvzc, sbc_decimal-SameNvzc, sbc_decimal-subtracts, sbc_decimal_cmos-subtracts,
}
use chippy.Cpu.Lines.Wired.{IrqEvent, raise, release, after, is_raised, irq_line-wired_or}
use chippy.Tests.{start_regs, quiet_lines}

-- The decimal 58 in A, C and D set.
abbrev bcd_regs : Regs
bcd_regs = record start_regs { a = 0x58; p = 0x29 }

carries : carry_in bcd_regs ≡ 1
unfolding carry_in
carries = refl

add_binary-adds_example :
    let r = bcd_regs in
    let s = r.a + 0x50 + carry_in r in
    let r' = add_binary 0x50 (carry_in r) r in
    HasResult r r' (s % 256)
    × HasNvzc r r'
        (ltb 255 s)
        (sum_overflows r.a 0x50 (carry_in r))
        (s % 256 == 0)
        (ltb 127 (s % 256))
add_binary-adds_example = add_binary-adds bcd_regs 0x50 (omega arith) (omega arith) (omega arith)

sub_binary-subtracts_example :
    let r = bcd_regs in
    let borrow = 1 - carry_in r in
    let d = (r.a + 256 - 0xF0 - borrow) % 256 in
    let r' = sub_binary 0xF0 (carry_in r) r in
    HasResult r r' d
    × HasNvzc r r'
        (leb (0xF0 + borrow) r.a)
        (difference_overflows r.a 0xF0 borrow)
        (d == 0)
        (ltb 127 d)
sub_binary-subtracts_example =
    sub_binary-subtracts bcd_regs 0xF0 (omega arith) (omega arith) (omega arith)

compare_flags-compares_example :
    let r' = compare_flags 3 5 bcd_regs in
    HasResult bcd_regs r' 0x58
    × HasNvzc bcd_regs r' (leb 5 3) (has_flag 64 bcd_regs) (3 == 5) (ltb 127 ((3 + 256 - 5) % 256))
compare_flags-compares_example =
    compare_flags-compares bcd_regs 3 5 (omega arith) (omega arith) (omega arith)

adc_decimal-adds_example :
    let s = 58 + 46 + carry_in bcd_regs in
    let r' = adc_decimal 0x46 (carry_in bcd_regs) bcd_regs in
    HasDigits bcd_regs r' (s % 100) (leb 100 s)
    × (has_flag flag_z r' ≡ ((0x58 + 0x46 + carry_in bcd_regs) % 256 == 0))
adc_decimal-adds_example =
    adc_decimal-adds bcd_regs 58 46 refl (omega arith) (omega arith) (omega arith)

adc_decimal_cmos-adds_example :
    let s = 58 + 46 + carry_in bcd_regs in
    let r' = adc_decimal_cmos 0x46 (carry_in bcd_regs) bcd_regs in
    HasDigits bcd_regs r' (s % 100) (leb 100 s)
    × (has_flag flag_z r' ≡ (s % 100 == 0))
    × (has_flag flag_n r' ≡ leb 80 (s % 100))
adc_decimal_cmos-adds_example =
    adc_decimal_cmos-adds bcd_regs 58 46 refl (omega arith) (omega arith) (omega arith)

sbc_decimal-SameNvzc_example :
    SameNvzc
      (sbc_decimal 0x99 (carry_in bcd_regs) bcd_regs)
      (sub_binary 0x99 (carry_in bcd_regs) bcd_regs)
sbc_decimal-SameNvzc_example =
    sbc_decimal-SameNvzc bcd_regs (omega arith) 0x99 (omega arith) (omega arith)

sbc_decimal-subtracts_example :
    let borrow = 1 - carry_in bcd_regs in
    HasDigits bcd_regs
      (sbc_decimal 0x99 (carry_in bcd_regs) bcd_regs)
      ((58 + 100 - 99 - borrow) % 100)
      (leb (99 + borrow) 58)
sbc_decimal-subtracts_example =
    sbc_decimal-subtracts bcd_regs 58 99 refl (omega arith) (omega arith) (omega arith)

sbc_decimal_cmos-subtracts_example :
    let borrow = 1 - carry_in bcd_regs in
    let d = (58 + 100 - 99 - borrow) % 100 in
    let r' = sbc_decimal_cmos 0x99 (carry_in bcd_regs) bcd_regs in
    HasDigits bcd_regs r' d (leb (99 + borrow) 58)
    × (has_flag flag_z r' ≡ (d == 0))
    × (has_flag flag_n r' ≡ leb 80 d)
sbc_decimal_cmos-subtracts_example =
    sbc_decimal_cmos-subtracts bcd_regs 58 99 refl (omega arith) (omega arith) (omega arith)

abbrev irq_history : List IrqEvent
irq_history = release "apu" ∷ raise "mmc3" ∷ raise "apu" ∷ []

irq_line-wired_or_example :
    ((after irq_history quiet_lines).irq_line ≡ true)
    ↔ ((s : String) × (is_raised irq_history s ≡ true))
irq_line-wired_or_example = irq_line-wired_or irq_history quiet_lines refl refl
