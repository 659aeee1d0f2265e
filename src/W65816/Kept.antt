-- ===== src/W65816/Kept.antt =====
-- What most operations on the registers keep: E, D, the width bits and the high bytes.
use chippy.Prelude.{ℕ, ◌≡◌, ◌∙◌, ap, Bool, not, ◌&&◌, ◌==◌, bit_and, digit, mask-16, mask-32, arith}
use chippy.W65816.State.{Regs}
use chippy.W65816.Width.{m_wide, x_wide}

-- D, E, the width bits and the high bytes of the stack and the index registers are the same.
pub record Kept (r v : Regs) : Type 0 where
  pub d : r.d ≡ v.d
  pub e : r.e ≡ v.e
  pub m_bit : digit 5 r.p ≡ digit 5 v.p
  pub x_bit : digit 4 r.p ≡ digit 4 v.p
  pub sp_hi : r.sp_hi ≡ v.sp_hi
  pub xh : r.xh ≡ v.xh
  pub yh : r.yh ≡ v.yh

pub Kept-trans : {r s t : Regs} → Kept r s → Kept s t → Kept r t
Kept-trans h j = record {
  d = h.d ∙ j.d;
  e = h.e ∙ j.e;
  m_bit = h.m_bit ∙ j.m_bit;
  x_bit = h.x_bit ∙ j.x_bit;
  sp_hi = h.sp_hi ∙ j.sp_hi;
  xh = h.xh ∙ j.xh;
  yh = h.yh ∙ j.yh;
}

-- A width from E and the digit of its bit.
wide_of : Bool → ℕ → Bool
wide_of e n = not e && (n == 0)

pub x_wide-Kept : (r v : Regs) → r.e ≡ v.e → digit 4 r.p ≡ digit 4 v.p → x_wide r ≡ x_wide v
unfolding x_wide wide_of
x_wide-Kept r v e bit =
    ap (λ b. wide_of b (bit_and r.p 16)) e
    ∙ ap (wide_of v.e) (omega (arith, bit, mask-16 r.p, mask-16 v.p))

pub m_wide-Kept : (r v : Regs) → r.e ≡ v.e → digit 5 r.p ≡ digit 5 v.p → m_wide r ≡ m_wide v
unfolding m_wide wide_of
m_wide-Kept r v e bit =
    ap (λ b. wide_of b (bit_and r.p 32)) e
    ∙ ap (wide_of v.e) (omega (arith, bit, mask-32 r.p, mask-32 v.p))

-- A function of the registers that keeps all of them.
abbrev pub Calm : (Regs → Regs) → Type 0
Calm f = (r : Regs) → Kept (f r) r
