-- ===== src/Cpu/Alu/Decimal.antt =====
-- Decimal ADC and SBC on packed decimal bytes, on the NMOS part and on the 65C02.
use chippy.Prelude.{
  ℕ, ◌+◌, ◌-◌, ◌*◌, ◌/◌, ◌%◌, ◌<◌, ◌≡◌, refl, ◌∙◌, Bool, true, ◌&&◌, bit_and, bit_xor, nonzero, u8,
  u16, and_not16, ltb, leb, ◌==◌, ==_iff, each_below, each_below_at, arith,
}
use chippy.Cpu.State.{Regs}
use chippy.Cpu.Flags.{has_flag, set_flag, set_zn, flag_c, flag_z, flag_n}
use chippy.Cpu.Alu.{
  carry_in, low_digit_sum, high_digit_sum, high_digit_fixup, decimal_diff, adc_decimal,
  adc_decimal_cmos,
}
use chippy.Cpu.Alu.Flags.{HasNvzc, same, same-eq, nvzc, vczn, nvzc-HasNvzc, vczn-HasNvzc}
use chippy.Cpu.Alu.Binary.{HasResult, carry_in-lt}

-- The packed decimal byte of a number below 100.
abbrev pub bcd : ℕ → ℕ
bcd x = x / 10 * 16 + x % 10

module _ (t : ℕ → ℕ → ℕ → Bool) where
  -- All pairs of numbers below 100, with a carry and without.
  pairs : Bool
  pairs = each_below 2 λ c. each_below 100 λ x. each_below 100 (t c x)

  pairs_sound : (c x y : ℕ) → pairs ≡ true → c < 2 → x < 100 → y < 100 → t c x y ≡ true
  unfolding pairs
  pairs_sound c x y h lc lx ly =
      let cs : each_below 100 (λ x. each_below 100 (t c x)) ≡ true =
        each_below_at 2 (λ c. each_below 100 λ x. each_below 100 (t c x)) c h lc in
      each_below_at 100 (t c x) y (each_below_at 100 (λ x. each_below 100 (t c x)) x cs lx) ly

-- The digits and the carry of a decimal sum.
sum_ok : ℕ → ℕ → ℕ → Bool
unfolding high_digit_sum high_digit_fixup
sum_ok c x y =
    let sum = high_digit_fixup (high_digit_sum (bcd x) (bcd y) c) in
    u8 (bit_and sum 0xFF) == bcd ((x + y + c) % 100) && same (leb 100 (x + y + c)) (leb 0x100 sum)

sums_ok : pairs sum_ok ≡ true
unfolding pairs each_below sum_ok low_digit_sum
sums_ok = refl

-- The digits of a decimal difference, and its borrow, which the code takes from a binary sum.
difference_ok : ℕ → ℕ → ℕ → Bool
unfolding decimal_diff
difference_ok c x y =
    u8 (bit_and (decimal_diff (bcd x) (bcd y) c) 0xFF) == bcd ((x + 100 - y - (1 - c)) % 100)
    && same (leb (y + (1 - c)) x) (ltb 0xFF (u16 (bcd x + bit_xor (bcd y) 0xFF + c)))

differences_ok : pairs difference_ok ≡ true
unfolding pairs each_below difference_ok
differences_ok = refl

bcd_signs : each_below 100 (λ d. same (leb 80 d) (nonzero (bit_and (bcd d) 0x80))) ≡ true
unfolding each_below
bcd_signs = refl

split_and : (p q : Bool) → (p && q) ≡ true → (p ≡ true) × (q ≡ true)
split_and p q h = ground arith

module _ (c x y : ℕ) (lc : c < 2) (lx : x < 100) (ly : y < 100) where
  sum_carry : leb 0x100 (high_digit_fixup (high_digit_sum (bcd x) (bcd y) c)) ≡ leb 100 (x + y + c)
  unfolding sum_ok
  sum_carry = same-eq _ _ (split_and _ _ (pairs_sound sum_ok c x y sums_ok lc lx ly)).1

  sum_digits :
      u8 (bit_and (high_digit_fixup (high_digit_sum (bcd x) (bcd y) c)) 0xFF)
      ≡ bcd ((x + y + c) % 100)
  unfolding sum_ok
  sum_digits = (==_iff _ _).0 (split_and _ _ (pairs_sound sum_ok c x y sums_ok lc lx ly)).0

  pub difference_borrow : ltb 0xFF (u16 (bcd x + bit_xor (bcd y) 0xFF + c)) ≡ leb (y + (1 - c)) x
  unfolding difference_ok
  difference_borrow =
      same-eq _ _ (split_and _ _ (pairs_sound difference_ok c x y differences_ok lc lx ly)).1

  pub difference_digits :
      u8 (bit_and (decimal_diff (bcd x) (bcd y) c) 0xFF) ≡ bcd ((x + 100 - y - (1 - c)) % 100)
  unfolding difference_ok
  difference_digits =
      (==_iff _ _).0 (split_and _ _ (pairs_sound difference_ok c x y differences_ok lc lx ly)).0

pub bcd-zero : (d : ℕ) → (bcd d == 0) ≡ (d == 0)
bcd-zero d = ground arith

pub bcd-negative : (d : ℕ) → d < 100 → nonzero (bit_and (bcd d) 0x80) ≡ leb 80 d
bcd-negative d lt =
    same-eq _ _
      (each_below_at 100 (λ d. same (leb 80 d) (nonzero (bit_and (bcd d) 0x80))) d bcd_signs lt)

-- `r'` is `r` but for A and P: A is the packed byte of `d`, and C is `c`.
pub record HasDigits (r r' : Regs) (d : ℕ) (c : Bool) : Type 0 where
  pub rest : HasResult r r' (bcd d)
  pub carry : has_flag flag_c r' ≡ c
  pub others : bit_and r'.p 0x3C ≡ bit_and r.p 0x3C

module _ (r : Regs) (x y : ℕ) (a : r.a ≡ bcd x) (lx : x < 100) (ly : y < 100) (lp : r.p < 256) where
  -- Decimal ADC on the NMOS part adds packed decimal numbers: A becomes the two decimal digits
  -- of the sum, C the carry out of them, Z says that the binary sum is 0 modulo 256, and the
  -- flags other than N, V, Z and C and the other registers are kept.
  pub adc_decimal-adds :
      let s = x + y + carry_in r in
      let r' = adc_decimal (bcd y) (carry_in r) r in
      HasDigits r r' (s % 100) (leb 100 s)
      × (has_flag flag_z r' ≡ ((bcd x + bcd y + carry_in r) % 256 == 0))
  unfolding adc_decimal
  adc_decimal-adds =
      let c = carry_in r in
      let ah = high_digit_sum (bcd x) (bcd y) c in
      let over =
        nonzero (bit_and (and_not16 (bit_xor (bcd x) ah) (bit_xor (bcd x) (bcd y))) 0x80) in
      let carry = sum_carry c x y (carry_in-lt r) lx ly in
      let digits = sum_digits c x y (carry_in-lt r) lx ly in
      let small : u8 (u16 (bcd x + bcd y + c)) ≡ (bcd x + bcd y + c) % 256 = omega arith in
      let flags : HasNvzc r (adc_decimal (bcd y) c r) (leb 100 (x + y + c)) over
          ((bcd x + bcd y + c) % 256 == 0) (nonzero (bit_and ah 0x80)) =
        nvzc-HasNvzc r _ _ _ _ _ lp (unfold nvzc set_flag in cc) in
      (
        record {
          rest = record { result = cc; x = refl; y = refl; sp = refl; pc = refl };
          carry = flags.carry;
          others = flags.others;
        },
        flags.zero,
      )

  -- Decimal ADC on the 65C02 adds packed decimal numbers: A becomes the two decimal digits of the
  -- sum, C the carry out of them, Z and N follow the decimal result, and the flags other than N,
  -- V, Z and C and the other registers are kept.
  pub adc_decimal_cmos-adds :
      let s = x + y + carry_in r in
      let r' = adc_decimal_cmos (bcd y) (carry_in r) r in
      HasDigits r r' (s % 100) (leb 100 s)
      × (has_flag flag_z r' ≡ (s % 100 == 0))
      × (has_flag flag_n r' ≡ leb 80 (s % 100))
  unfolding adc_decimal_cmos
  adc_decimal_cmos-adds =
      let c = carry_in r in
      let ah = high_digit_sum (bcd x) (bcd y) c in
      let over =
        nonzero (bit_and (and_not16 (bit_xor (bcd x) ah) (bit_xor (bcd x) (bcd y))) 0x80) in
      let carry = sum_carry c x y (carry_in-lt r) lx ly in
      let digits = sum_digits c x y (carry_in-lt r) lx ly in
      let d = (x + y + c) % 100 in
      let flags : HasNvzc r (adc_decimal_cmos (bcd y) c r) (leb 100 (x + y + c)) over (bcd d == 0)
          (nonzero (bit_and (bcd d) 0x80)) =
        vczn-HasNvzc r _ _ _ _ _ lp (unfold vczn set_flag set_zn in cc) in
      (
        record {
          rest = record { result = cc; x = refl; y = refl; sp = refl; pc = refl };
          carry = flags.carry;
          others = flags.others;
        },
        flags.zero ∙ bcd-zero d,
        flags.negative ∙ bcd-negative d (omega arith),
      )
