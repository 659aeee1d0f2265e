-- ===== src/Cpu/Alu/Binary.antt =====
-- Binary ADC and SBC against sums and differences of numbers, and the comparison.
use chippy.Prelude.{
  ℕ, ◌+◌, ◌-◌, ◌%◌, ◌<◌, ◌≡◌, refl, ap, Bool, true, ◌||◌, nonzero, bit_and, bit_xor, u8, u16, ltb,
  ◌==◌, ==_iff, each_below, each_below_at, arith,
}
use chippy.Cpu.State.{Regs}
use chippy.Cpu.Flags.{set_flag, set_zn}
use chippy.Cpu.Alu.{carry_in, overflow_bit, add_binary}
use chippy.Cpu.Alu.Flags.{HasNvzc, cvzn, same, same-eq, cvzn-HasNvzc}

-- A byte read in two's complement, plus 128: it keeps the order of the signed values.
abbrev pub biased : ℕ → ℕ
biased v = (v + 128) % 256

-- The signed sum of two bytes and a carry is outside -128 … 127.
abbrev pub sum_overflows : ℕ → ℕ → ℕ → Bool
sum_overflows a v carry = let s = biased a + biased v + carry in ltb s 128 || ltb 383 s

-- The signed difference of two bytes and a borrow is outside -128 … 127.
abbrev pub difference_overflows : ℕ → ℕ → ℕ → Bool
difference_overflows a v borrow =
    let d = biased a + 256 - biased v - borrow in ltb d 128 || ltb 383 d

overflow_row : ℕ → ℕ → ℕ → Bool
unfolding overflow_bit
overflow_row carry a v = same (sum_overflows a v carry) (overflow_bit a v (u16 (a + v + carry)))

overflow_table : ℕ → Bool
overflow_table carry = each_below 256 λ a. each_below 256 (overflow_row carry a)

overflow_tables : each_below 2 overflow_table ≡ true
unfolding each_below overflow_table overflow_row
overflow_tables = refl

overflow_bit-sum_overflows :
    (a v carry : ℕ)
    → a < 256
    → v < 256
    → carry < 2
    → overflow_bit a v (u16 (a + v + carry)) ≡ sum_overflows a v carry
unfolding overflow_row overflow_table
overflow_bit-sum_overflows a v carry la lv lc =
    let row : overflow_table carry ≡ true =
      each_below_at 2 overflow_table carry overflow_tables lc in
    same-eq _ _ (
      each_below_at 256 (overflow_row carry a) v
        (each_below_at 256 (λ b. each_below 256 (overflow_row carry b)) a row la) lv)

-- Bit 7 of a byte is its order against 128.
high_bit_table : each_below 256 (λ v. same (ltb 127 v) (nonzero (bit_and v 0x80))) ≡ true
unfolding each_below
high_bit_table = refl

pub high_bit : (v : ℕ) → v < 256 → nonzero (bit_and v 0x80) ≡ ltb 127 v
high_bit v lt = same-eq _ _ (each_below_at 256 _ v high_bit_table lt)

complement_table : each_below 256 (λ v. bit_xor v 0xFF == 255 - v) ≡ true
unfolding each_below
complement_table = refl

pub complement : (v : ℕ) → v < 256 → bit_xor v 0xFF ≡ 255 - v
complement v lt = (==_iff _ _).0 (each_below_at 256 _ v complement_table lt)

pub carry_in-lt : (r : Regs) → carry_in r < 2
unfolding carry_in
carry_in-lt r = ground arith

-- `r'` is `r` but for A and P, and A is `a`.
pub record HasResult (r r' : Regs) (a : ℕ) : Type 0 where
  pub result : r'.a ≡ a
  pub x : r'.x ≡ r.x
  pub y : r'.y ≡ r.y
  pub sp : r'.sp ≡ r.sp
  pub pc : r'.pc ≡ r.pc

-- The binary addition of ADC, RRA and the NES, on bytes A, P and operand: A becomes the sum modulo 256, C its carry out,
-- V the signed overflow, Z and N follow the result; the other flags and registers are kept.
pub add_binary-adds :
    (r : Regs) (v : ℕ)
    → r.a < 256
    → r.p < 256
    → v < 256
    → let s = r.a + v + carry_in r in
      let r' = add_binary v (carry_in r) r in
      HasResult r r' (s % 256)
      × HasNvzc r r'
          (ltb 255 s)
          (sum_overflows r.a v (carry_in r))
          (s % 256 == 0)
          (ltb 127 (s % 256))
unfolding add_binary
add_binary-adds r v la lp lv =
    let small : u16 (r.a + v + carry_in r) ≡ r.a + v + carry_in r = omega (arith, carry_in-lt r) in
    let over = overflow_bit-sum_overflows r.a v (carry_in r) la lv (carry_in-lt r) in
    let high = high_bit ((r.a + v + carry_in r) % 256) (omega arith) in
    (
      record { result = ap u8 small; x = refl; y = refl; sp = refl; pc = refl },
      cvzn-HasNvzc r _ _ _ _ _ lp (unfold cvzn set_zn set_flag in cc),
    )
