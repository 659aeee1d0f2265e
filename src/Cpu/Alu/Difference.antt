-- ===== src/Cpu/Alu/Difference.antt =====
-- Binary SBC and the comparisons against differences of numbers.
use chippy.Prelude.{ℕ, ◌+◌, ◌-◌, ◌%◌, ◌<◌, ◌≡◌, refl, ap, ◌∙◌, Bool, bit_xor, ltb, leb, ◌==◌, arith}
use chippy.Cpu.State.{Regs}
use chippy.Cpu.Flags.{has_flag, set_flag, flag_v}
use chippy.Cpu.Alu.{carry_in, sub_binary, compare_flags}
use chippy.Cpu.Alu.Flags.{HasNvzc, cvzn-HasNvzc, czn-cvzn}
use chippy.Cpu.Alu.Binary.{
  HasResult, biased, sum_overflows, difference_overflows, add_binary-adds, carry_in-lt, complement,
  high_bit,
}

HasNvzc-eq :
    {r r' : Regs} {c v z n c' v' z' n' : Bool}
    → HasNvzc r r' c v z n
    → c ≡ c'
    → v ≡ v'
    → z ≡ z'
    → n ≡ n'
    → HasNvzc r r' c' v' z' n'
HasNvzc-eq h c v z n = record {
  carry = h.carry ∙ c;
  overflow = h.overflow ∙ v;
  zero = h.zero ∙ z;
  negative = h.negative ∙ n;
  others = h.others;
  in_range = h.in_range;
}

biased-complement : (v : ℕ) → v < 256 → biased (255 - v) ≡ 255 - biased v
biased-complement v lt = omega arith

overflows-complement :
    (a v c : ℕ) → v < 256 → c < 2 → sum_overflows a (255 - v) c ≡ difference_overflows a v (1 - c)
overflows-complement a v c lv lc = ground (arith, biased-complement v lv)

-- The binary subtraction of SBC, ISC and the NES, on bytes A, P and operand: with the complement of C as the borrow, A
-- becomes the difference modulo 256, C says that nothing was borrowed, V is the signed
-- overflow, Z and N follow the result; the other flags and registers are kept.
pub sub_binary-subtracts :
    (r : Regs) (v : ℕ)
    → r.a < 256
    → r.p < 256
    → v < 256
    → let borrow = 1 - carry_in r in
      let d = (r.a + 256 - v - borrow) % 256 in
      let r' = sub_binary v (carry_in r) r in
      HasResult r r' d
      × HasNvzc r r' (leb (v + borrow) r.a) (difference_overflows r.a v borrow) (d == 0) (ltb 127 d)
unfolding sub_binary
sub_binary-subtracts r v la lp lv =
    let w : bit_xor v 0xFF ≡ 255 - v = complement v lv in
    let c = carry_in-lt r in
    let (h, k) = add_binary-adds r (bit_xor v 0xFF) la lp (omega (arith, w)) in
    let e : (r.a + bit_xor v 0xFF + carry_in r) % 256 ≡ (r.a + 256 - v - (1 - carry_in r)) % 256 =
      omega (arith, w, c) in
    (
      record { result = h.result ∙ e; x = h.x; y = h.y; sp = h.sp; pc = h.pc },
      HasNvzc-eq k (ground (arith, w, c))
          (ap (λ u. sum_overflows r.a u (carry_in r)) w
            ∙ overflows-complement r.a v (carry_in r) lv c)
          (ap (λ d. d == 0) e) (ap (ltb 127) e),
    )

-- CMP, CPX, CPY and the comparison of DCP, on bytes: C says that the register is at least the operand, Z
-- that they are equal, N is bit 7 of the difference modulo 256; V, the other flags and all other
-- registers are kept.
pub compare_flags-compares :
    (r : Regs) (reg v : ℕ)
    → r.p < 256
    → reg < 256
    → v < 256
    → let r' = compare_flags reg v r in
      HasResult r r' r.a
      × HasNvzc r r' (leb v reg) (has_flag flag_v r) (reg == v) (ltb 127 ((reg + 256 - v) % 256))
unfolding compare_flags
compare_flags-compares r reg v lp lr lv = (
  record { result = refl; x = refl; y = refl; sp = refl; pc = refl },
  cvzn-HasNvzc r _ _ _ _ _ lp (
      let high = high_bit ((reg + 256 - v) % 256) (omega arith) in
      let keep = czn-cvzn r.p (leb v reg) (reg == v) (ltb 127 ((reg + 256 - v) % 256)) lp in
      unfold set_flag has_flag in cc),
)
