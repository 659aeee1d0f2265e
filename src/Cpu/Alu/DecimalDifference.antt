-- ===== src/Cpu/Alu/DecimalDifference.antt =====
-- Decimal SBC on packed decimal bytes, on the NMOS part and on the 65C02.
use chippy.Prelude.{
  ℕ, ◌+◌, ◌-◌, ◌%◌, ◌<◌, ◌≡◌, refl, sym, ap, ◌∙◌, bit_and, bit_xor, nonzero, u8, u16, ltb, leb,
  ◌==◌, ==_iff, true, each_below, each_below_at, arith,
}
use chippy.Cpu.State.{Regs}
use chippy.Cpu.Flags.{has_flag, set_flag, set_zn, flag_c, flag_z, flag_n, flag_v}
use chippy.Cpu.Alu.{carry_in, overflow_bit, sub_binary, add_binary, sbc_decimal, sbc_decimal_cmos}
use chippy.Cpu.Alu.Flags.{HasNvzc, cvnz, cvzn, cvnz-HasNvzc, cvzn-HasNvzc}
use chippy.Cpu.Alu.Binary.{carry_in-lt, complement}
use chippy.Cpu.Alu.Decimal.{
  bcd, HasDigits, bcd-zero, bcd-negative, difference_borrow, difference_digits,
}

-- N, V, Z and C are the same in both.
pub record SameNvzc (r' r'' : Regs) : Type 0 where
  pub carry : has_flag flag_c r' ≡ has_flag flag_c r''
  pub overflow : has_flag flag_v r' ≡ has_flag flag_v r''
  pub zero : has_flag flag_z r' ≡ has_flag flag_z r''
  pub negative : has_flag flag_n r' ≡ has_flag flag_n r''

low_byte_table : each_below 512 (λ s. bit_and (u8 s) 0x80 == bit_and s 0x80) ≡ true
unfolding each_below
low_byte_table = refl

low_byte : (s : ℕ) → s < 512 → bit_and (u8 s) 0x80 ≡ bit_and s 0x80
low_byte s lt =
    (==_iff _ _).0
      (each_below_at 512 (λ s. bit_and (u8 s) 0x80 == bit_and s 0x80) s low_byte_table lt)

module _ (r : Regs) (lp : r.p < 256) where
  -- On all bytes A, P and operand, decimal or not, SBC in decimal mode on the NMOS part leaves the flags of the
  -- binary subtraction.
  pub sbc_decimal-SameNvzc :
      (v : ℕ)
      → r.a < 256
      → v < 256
      → SameNvzc (sbc_decimal v (carry_in r) r) (sub_binary v (carry_in r) r)
  unfolding sbc_decimal sub_binary add_binary
  sbc_decimal-SameNvzc v la lv =
      let sum = u16 (r.a + bit_xor v 0xFF + carry_in r) in
      let high : nonzero (bit_and sum 0x80) ≡ nonzero (bit_and (u8 sum) 0x80) =
        ap nonzero (sym (low_byte sum (omega (arith, complement v lv, carry_in-lt r)))) in
      let flags : HasNvzc r (sbc_decimal v (carry_in r) r) (ltb 0xFF sum)
          (overflow_bit r.a (bit_xor v 0xFF) sum) (u8 sum == 0) (nonzero (bit_and sum 0x80)) =
        cvnz-HasNvzc r _ _ _ _ _ lp (unfold cvnz set_flag in refl) in
      let flags' : HasNvzc r (sub_binary v (carry_in r) r) (ltb 0xFF sum)
          (overflow_bit r.a (bit_xor v 0xFF) sum) (u8 sum == 0) (nonzero (bit_and (u8 sum) 0x80)) =
        cvzn-HasNvzc r _ _ _ _ _ lp (unfold cvzn set_flag set_zn in refl) in
      record {
        carry = flags.carry ∙ sym flags'.carry;
        overflow = flags.overflow ∙ sym flags'.overflow;
        zero = flags.zero ∙ sym flags'.zero;
        negative = flags.negative ∙ high ∙ sym flags'.negative;
      }

module _ (r : Regs) (x y : ℕ) (a : r.a ≡ bcd x) (lx : x < 100) (ly : y < 100) (lp : r.p < 256) where
  -- Decimal SBC on the NMOS part subtracts packed decimal numbers: with the complement of C as
  -- the borrow, A becomes the two decimal digits of the difference modulo 100, C says that
  -- nothing was borrowed, and the flags other than N, V, Z and C and the other registers are
  -- kept.
  pub sbc_decimal-subtracts :
      let borrow = 1 - carry_in r in
      HasDigits r
        (sbc_decimal (bcd y) (carry_in r) r)
        ((x + 100 - y - borrow) % 100)
        (leb (y + borrow) x)
  unfolding sbc_decimal
  sbc_decimal-subtracts =
      let c = carry_in r in
      let sum = u16 (bcd x + bit_xor (bcd y) 0xFF + c) in
      let borrow = difference_borrow c x y (carry_in-lt r) lx ly in
      let digits = difference_digits c x y (carry_in-lt r) lx ly in
      let flags : HasNvzc r (sbc_decimal (bcd y) c r) (leb (y + (1 - c)) x)
          (overflow_bit (bcd x) (bit_xor (bcd y) 0xFF) sum) (u8 sum == 0)
          (nonzero (bit_and sum 0x80)) =
        cvnz-HasNvzc r _ _ _ _ _ lp (unfold cvnz set_flag in cc) in
      record {
        rest = record { result = cc; x = refl; y = refl; sp = refl; pc = refl };
        carry = flags.carry;
        others = flags.others;
      }

  -- Decimal SBC on the 65C02 subtracts packed decimal numbers: with the complement of C as the
  -- borrow, A becomes the two decimal digits of the difference modulo 100, C says that nothing was
  -- borrowed, Z and N follow the decimal result, and the flags other than N, V, Z and C and the
  -- other registers are kept.
  pub sbc_decimal_cmos-subtracts :
      let borrow = 1 - carry_in r in
      let d = (x + 100 - y - borrow) % 100 in
      let r' = sbc_decimal_cmos (bcd y) (carry_in r) r in
      HasDigits r r' d (leb (y + borrow) x)
      × (has_flag flag_z r' ≡ (d == 0))
      × (has_flag flag_n r' ≡ leb 80 d)
  unfolding sbc_decimal_cmos
  sbc_decimal_cmos-subtracts =
      let c = carry_in r in
      let sum = u16 (bcd x + bit_xor (bcd y) 0xFF + c) in
      let borrow = difference_borrow c x y (carry_in-lt r) lx ly in
      let digits = difference_digits c x y (carry_in-lt r) lx ly in
      let d = (x + 100 - y - (1 - c)) % 100 in
      let flags : HasNvzc r (sbc_decimal_cmos (bcd y) c r) (leb (y + (1 - c)) x)
          (overflow_bit (bcd x) (bit_xor (bcd y) 0xFF) sum) (bcd d == 0)
          (nonzero (bit_and (bcd d) 0x80)) =
        cvzn-HasNvzc r _ _ _ _ _ lp (unfold cvzn set_flag set_zn in cc) in
      (
        record {
          rest = record { result = cc; x = refl; y = refl; sp = refl; pc = refl };
          carry = flags.carry;
          others = flags.others;
        },
        flags.zero ∙ bcd-zero d,
        flags.negative ∙ bcd-negative d (omega arith),
      )
