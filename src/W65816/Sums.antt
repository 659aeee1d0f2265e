-- ===== src/W65816/Sums.antt =====
-- The binary 16-bit addition of adc816 (cpu/arith816.go), against the sum of numbers.
use chippy.Prelude.{
  ℕ, ◌+◌, ◌*◌, ◌/◌, ◌%◌, ◌<◌, ◌≡◌, refl, sym, ap, ◌∙◌, Bool, true, false, ◌||◌, nonzero, bit_and,
  bit_xor, u16, ltb, ◌==◌, digit, digit-15, digit-bit_and, digit-bit_xor, mask-place, place, arith,
}
use chippy.Cpu.State
use chippy.Cpu.Flags
use chippy.Cpu.Alu.Flags.{cvzn, cvzn-HasNvzc}
use mathlib.Core.Path.{subst}
use chippy.Cpu.Flags.{flag_c, flag_z, flag_d, flag_v, flag_n}
use chippy.Memory.Stack.{word-bytes}
use chippy.W65816.State.{Regs}
use chippy.W65816.Width.{has_flag, set_flag, set_zn16, set_a16, a16, m_wide}
use chippy.W65816.Decimal.{overflow_bit16}
use chippy.W65816.Alu.{carry_in, put_a16, add_wide, adc816}

-- A word read in two's complement, plus 32768: it keeps the order of the signed values.
abbrev pub biased : ℕ → ℕ
biased v = (v + 32768) % 65536

-- The signed sum of two words and a carry is outside -32768 … 32767.
abbrev pub sum_overflows : ℕ → ℕ → ℕ → Bool
sum_overflows a v carry = let s = biased a + biased v + carry in ltb s 32768 || ltb 98303 s

-- The top digit of a word.
top_bit : (v : ℕ) → nonzero (bit_and v 0x8000) ≡ ltb 0 (v / 32768 % 2)
unfolding place
top_bit v =
    let m : bit_and v 0x8000 ≡ digit 15 v * 0x8000 = mask-place 15 v in
    ground (arith, m, digit-15 v)

overflow_bit16-sum_overflows :
    (a v carry : ℕ)
    → a < 65536
    → v < 65536
    → carry < 2
    → overflow_bit16 a v (a + v + carry) ≡ sum_overflows a v carry
unfolding overflow_bit16
overflow_bit16-sum_overflows a v carry la lv lc =
    let s = a + v + carry in
    let no : ℕ = bit_xor (bit_xor a v) 0xFFFFFFFF in
    let both : ℕ = bit_and no (bit_xor a s) in
    let all_ones : digit 15 0xFFFFFFFF ≡ 1 = unfold digit in refl in
    top_bit both
    ∙ ground (
      arith,
      digit-15 both,
      digit-15 a,
      digit-15 v,
      digit-15 s,
      digit-bit_and 15 no (bit_xor a s),
      digit-bit_xor 15 (bit_xor a v) 0xFFFFFFFF,
      digit-bit_xor 15 a v,
      digit-bit_xor 15 a s,
      all_ones,
      la,
      lv,
      lc,
    )

-- C, V, Z and N of `r'` are the four values, the other four bits are those of `r`.
pub record HasFlags (r r' : Regs) (c v z n : Bool) : Type 0 where
  pub carry : has_flag flag_c r' ≡ c
  pub overflow : has_flag flag_v r' ≡ v
  pub zero : has_flag flag_z r' ≡ z
  pub negative : has_flag flag_n r' ≡ n
  pub others : bit_and r'.p 0x3C ≡ bit_and r.p 0x3C

-- The registers of the 8-bit core with a status.
abbrev with_status : ℕ → State.Regs
with_status p = record { a = 0; x = 0; y = 0; sp = 0; p = p; pc = 0 }

cvzn-HasFlags :
    (r r' : Regs) (c v z n : Bool) → r.p < 256 → r'.p ≡ cvzn r.p c v z n → HasFlags r r' c v z n
unfolding has_flag Flags.has_flag
cvzn-HasFlags r r' c v z n lt e =
    let h = cvzn-HasNvzc (with_status r.p) (with_status r'.p) c v z n lt e in
    record {
      carry = h.carry;
      overflow = h.overflow;
      zero = h.zero;
      negative = h.negative;
      others = h.others;
    }

-- `r'` is `r` with the word `s % 65536` in the accumulator and these flags.
pub record HasSum (r r' : Regs) (s : ℕ) (v : Bool) : Type 0 where
  pub result : a16 r' ≡ s % 65536
  pub rest : r' ≡ record r { a = r'.a; b = r'.b; p = r'.p }
  pub flags : HasFlags r r' (ltb 65535 s) v (s % 65536 == 0) (ltb 32767 (s % 65536))

carry_in-lt : (r : Regs) → carry_in r < 2
unfolding carry_in
carry_in-lt r = ground arith

add_wide-HasSum :
    (r : Regs) (v : ℕ)
    → a16 r < 65536
    → r.p < 256
    → v < 65536
    → HasSum r
        (add_wide v (carry_in r) r)
        (a16 r + v + carry_in r)
        (sum_overflows (a16 r) v (carry_in r))
unfolding add_wide put_a16 set_a16 set_zn16 set_flag cvzn
add_wide-HasSum r v la lp lv =
    let s = a16 r + v + carry_in r in
    let over = overflow_bit16-sum_overflows (a16 r) v (carry_in r) la lv (carry_in-lt r) in
    let top : nonzero (bit_and (u16 s) 0x8000) ≡ ltb 32767 (s % 65536) =
      top_bit (u16 s) ∙ ground arith in
    let flags_of = cvzn r.p (ltb 65535 s) in
    record {
      result = unfold a16 in word-bytes (u16 s) (omega arith);
      rest = refl;
      flags = cvzn-HasFlags r _ _ _ _ _ lp (
          ap (flags_of (overflow_bit16 (a16 r) v s) (s % 65536 == 0)) top
          ∙ ap (λ w. flags_of w (s % 65536 == 0) (ltb 32767 (s % 65536))) over);
    }

-- ADC of the 65816 with D clear and a 16-bit accumulator, on a status byte: the accumulator becomes
-- the sum of the two words and C modulo 65536, C its carry out, V the signed overflow of 16 bits, Z
-- and N follow the result; the other flags and registers are kept.
pub adc816-adds :
    (r : Regs) (v : ℕ)
    → has_flag flag_d r ≡ false
    → m_wide r ≡ true
    → a16 r < 65536
    → r.p < 256
    → v < 65536
    → HasSum r (adc816 v r) (a16 r + v + carry_in r) (sum_overflows (a16 r) v (carry_in r))
unfolding adc816
adc816-adds r v binary wide la lp lv =
    let wide_sum : adc816 v r ≡ add_wide v (carry_in r) r = ground (arith, binary, wide) in
    subst (λ r'. HasSum r r' (a16 r + v + carry_in r) (sum_overflows (a16 r) v (carry_in r)))
      (sym wide_sum) (add_wide-HasSum r v la lp lv)
