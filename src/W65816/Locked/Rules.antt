-- ===== src/W65816/Locked/Rules.antt =====
-- The locked registers, the actions that lead from locked to locked registers, and how they
-- compose.
use chippy.Prelude.{ℕ, ◌≡◌, ◌∙◌, Bool, true, false, sym, digit}
use chippy.W65816.State.{
  Bus24, Regs, Cpu, M, Pins, ◌>>=◌, pure, regs, on_regs, on_pins, through, set_halted,
  set_stopped_by_stp,
}
use chippy.W65816.Width.{x_wide}
use chippy.W65816.Access.{read24, write24}
use chippy.W65816.Kept.{Kept, x_wide-Kept, Calm}

-- In emulation mode M is set and, but in the middle of some instructions, the stack
-- is in page 1; with 8-bit index registers their high bytes are 0.
pub record IsLocked (between : Bool) (r : Regs) : Type 0 where
  pub page : between ≡ true → r.e ≡ true → r.sp_hi ≡ 1
  pub m_set : r.e ≡ true → digit 5 r.p ≡ 1
  pub xh_clear : x_wide r ≡ false → r.xh ≡ 0
  pub yh_clear : x_wide r ≡ false → r.yh ≡ 0

pub Kept-IsLocked : {s : Bool} {r v : Regs} → Kept r v → IsLocked s v → IsLocked s r
Kept-IsLocked {r = r} {v = v} k h =
    let x = x_wide-Kept r v k.e k.x_bit in
    record {
      page = λ s e. k.sp_hi ∙ h.page s (sym k.e ∙ e);
      m_set = λ e. k.m_bit ∙ h.m_set (sym k.e ∙ e);
      xh_clear = λ n. k.xh ∙ h.xh_clear (sym x ∙ n);
      yh_clear = λ n. k.yh ∙ h.yh_clear (sym x ∙ n);
    }

-- The stack may have left its page.
pub IsLocked-loose : {s : Bool} {r : Regs} → IsLocked s r → IsLocked false r
IsLocked-loose h = record {
  page = λ s e. cc;
  m_set = h.m_set;
  xh_clear = h.xh_clear;
  yh_clear = h.yh_clear;
}

pub record Leads {W A : Type 0} (s t : Bool) (m : M W A) : Type 0 where
  pub at : (c : Cpu W) → IsLocked s c.regs → IsLocked t (m c).1.regs

module _ {W : Type 0} {s : Bool} where
  pub Leads-pure : {A : Type 0} (a : A) → Leads {W = W} s s (pure a)
  unfolding pure
  Leads-pure a = record { at = λ c h. h }

  pub Leads-regs : Leads {W = W} s s regs
  unfolding regs
  Leads-regs = record { at = λ c h. h }

  pub Leads-on_pins : (f : Pins → Pins) → Leads {W = W} s s (on_pins f)
  unfolding on_pins
  Leads-on_pins f = record { at = λ c h. h }

  pub Leads-set_halted : (b : Bool) → Leads {W = W} s s (set_halted b)
  unfolding set_halted
  Leads-set_halted b = record { at = λ c h. h }

  pub Leads-set_stopped_by_stp : (b : Bool) → Leads {W = W} s s (set_stopped_by_stp b)
  unfolding set_stopped_by_stp
  Leads-set_stopped_by_stp b = record { at = λ c h. h }

  pub Leads-on_regs :
      {t : Bool} (f : Regs → Regs)
      → ((r : Regs) → IsLocked s r → IsLocked t (f r))
      → Leads {W = W} s t (on_regs f)
  unfolding on_regs
  Leads-on_regs f keeps = record { at = λ c h. keeps c.regs h }

  pub Leads-Calm : (f : Regs → Regs) → Calm f → Leads {W = W} s s (on_regs f)
  unfolding on_regs
  Leads-Calm f calm = record { at = λ c h. Kept-IsLocked (calm c.regs) h }

  pub Leads-through :
      {A : Type 0} (f : Regs → A × Regs) → Calm (λ r. (f r).1) → Leads {W = W} s s (through f)
  unfolding through
  Leads-through f calm = record { at = λ c h. Kept-IsLocked (calm c.regs) h }

  pub Leads-bind :
      {A B : Type 0} {t u : Bool} (m : M W A) (f : A → M W B)
      → Leads s t m
      → ((a : A) → Leads t u (f a))
      → Leads s u (m >>= f)
  unfolding ◌>>=◌
  Leads-bind m f hm hf = record { at = λ c h. (hf (m c).0).at (m c).1 (hm.at c h) }

  -- The case that `search` meets most.
  pub Leads-chain :
      {A B : Type 0} {t : Bool} (m : M W A) (f : A → M W B)
      → Leads s s m
      → ((a : A) → Leads s t (f a))
      → Leads s t (m >>= f)
  Leads-chain m f hm hf = Leads-bind m f hm hf

  pub Leads-loose : {A : Type 0} {t : Bool} (m : M W A) → Leads false t m → Leads s t m
  Leads-loose m hm = record { at = λ c h. hm.at c (IsLocked-loose h) }

module _ {W : Type 0} {s : Bool} (bus : Bus24 W) where
  pub Leads-read24 : (addr : ℕ) → Leads s s (read24 bus addr)
  unfolding read24
  Leads-read24 addr = record { at = λ c h. h }

  pub Leads-write24 : (addr b : ℕ) → Leads s s (write24 bus addr b)
  unfolding write24
  Leads-write24 addr b = record { at = λ c h. h }

pub ruleset lead_rules = (
  Leads-pure, Leads-regs, Leads-on_pins, Leads-set_halted, Leads-set_stopped_by_stp, Leads-chain,
  Leads-read24, Leads-write24, Leads-Calm, Leads-through,
)
