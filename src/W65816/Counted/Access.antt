-- ===== src/W65816/Counted/Access.antt =====
-- What the memory primitives, the stack and the direct page spend.
use chippy.Prelude.{subst, ℕ, u16, ◌+◌, ◌≡◌, Bool, true, false, refl, if◌then◌else◌}
use chippy.Cpu.State.{Env}
use chippy.W65816.State.{Bus24, Regs, M, ◌>>=◌, pure, regs, on_regs, on_pins}
use chippy.W65816.Width.{m_wide, x_wide}
use chippy.W65816.Access.{
  long, set_pins, pin_data, pin_none, pin_vector, fetch816, fetch16, fetch24, io816, io_pc1,
  read_data, write_data, read24, write24,
}
use chippy.W65816.Modes.{
  dl_set, dl_penalty, dp_io, when, read_dp_word, read_dp_long, read_dp_word_wrap, read_dp_long_wrap,
}
use chippy.W65816.Counted.Rules.{
  CountsOn, Same, Same-trans, Steady, Spends, Spends-pure, Spends-regs, Spends-on_pins, Spends-bind,
}

pub pc-Steady : (f : Regs → ℕ) → Steady (λ r. record r { pc = f r })
unfolding dl_set m_wide x_wide
pc-Steady f r = record { dl = refl; m = refl; x = refl; e = refl }

module _ {W : Type 0} {count : Env W → ℕ} {v : Regs} (bus : Bus24 W)
    (counted : CountsOn bus count) where
  pub fetch816-Spends : Spends count v 1 (fetch816 bus)
  unfolding fetch816 read24 ◌>>=◌ pure on_regs regs on_pins
  fetch816-Spends = record {
    at = λ c h. (counted.read _ _, Same-trans (pc-Steady (λ r. u16 (r.pc + 1)) c.regs) h);
  }

  pub fetch16-Spends : Spends count v 2 (fetch16 bus)
  unfolding fetch16
  fetch16-Spends = Spends-bind fetch816-Spends λ lo. Spends-bind fetch816-Spends λ hi. Spends-pure _

  pub fetch24-Spends : Spends count v 3 (fetch24 bus)
  unfolding fetch24
  fetch24-Spends =
      Spends-bind fetch816-Spends
        λ lo. Spends-bind fetch816-Spends λ mid. Spends-bind fetch816-Spends λ hi. Spends-pure _

  pub io816-Spends : Spends count v 1 (io816 bus)
  unfolding io816 pin_none ◌>>=◌ pure read24 regs on_pins
  io816-Spends = record { at = λ c h. (counted.read _ _, h) }

  pub io_pc1-Spends : Spends count v 1 (io_pc1 bus)
  unfolding io_pc1 read24 ◌>>=◌ pure regs pin_none on_pins
  io_pc1-Spends = record { at = λ c h. (counted.read _ _, h) }

  pub read_data-Spends : (addr : ℕ) → Spends count v 1 (read_data bus addr)
  unfolding read_data read24 ◌>>=◌ pin_data on_pins
  read_data-Spends addr = record { at = λ c h. (counted.read _ _, h) }

  pub write_data-Spends : (addr b : ℕ) → Spends count v 1 (write_data bus addr b)
  unfolding write_data write24 ◌>>=◌ pin_data on_pins
  write_data-Spends addr b = record { at = λ c h. (counted.write _ b _, h) }

  pub set_pins-Spends : (p : ℕ) → Spends count v 0 (set_pins p)
  unfolding set_pins
  set_pins-Spends p = Spends-on_pins _

  pub pin_none-Spends : Spends count v 0 pin_none
  unfolding pin_none
  pin_none-Spends = Spends-on_pins _

  pub pin_vector-Spends : Spends count v 0 pin_vector
  unfolding pin_vector
  pin_vector-Spends = Spends-on_pins _

  -- Two reads at addresses that the registers give, and three.
  read_two-Spends :
      (a b : Regs → ℕ) {B : Type 0} (k : ℕ → ℕ → B)
      → Spends count v 2
          (do r ← regs; lo ← read_data bus (a r); hi ← read_data bus (b r); pure (k lo hi))
  read_two-Spends a b k = Spends-bind Spends-regs λ r.
      Spends-bind (read_data-Spends (a r))
        λ lo. Spends-bind (read_data-Spends (b r)) λ hi. Spends-pure _

  read_three-Spends :
      (a b d : Regs → ℕ)
      → Spends count v 3 (do
        r ← regs
        b0 ← read_data bus (a r)
        b1 ← read_data bus (b r)
        b2 ← read_data bus (d r)
        pure (long b0 b1 b2))
  read_three-Spends a b d = Spends-bind Spends-regs λ r. Spends-bind (read_data-Spends (a r)) λ b0.
      Spends-bind (read_data-Spends (b r))
        λ b1. Spends-bind (read_data-Spends (d r)) λ b2. Spends-pure _

  pub read_dp_word-Spends : (dp idx : ℕ) → Spends count v 2 (read_dp_word bus dp idx)
  unfolding read_dp_word
  read_dp_word-Spends dp idx = read_two-Spends _ _ _

  pub read_dp_word_wrap-Spends : (dp : ℕ) → Spends count v 2 (read_dp_word_wrap bus dp)
  unfolding read_dp_word_wrap
  read_dp_word_wrap-Spends dp = read_two-Spends _ _ _

  pub read_dp_long-Spends : (dp : ℕ) → Spends count v 3 (read_dp_long bus dp)
  unfolding read_dp_long
  read_dp_long-Spends dp = read_three-Spends _ _ _

  pub read_dp_long_wrap-Spends : (dp : ℕ) → Spends count v 3 (read_dp_long_wrap bus dp)
  unfolding read_dp_long_wrap
  read_dp_long_wrap-Spends dp = read_three-Spends _ _ _

  -- An optional action that makes one access.
  pub when-Spends :
      (b : Bool) {m : M W (Unit {0})}
      → Spends count v 1 m
      → Spends count v (if b then 1 else 0) (when b m)
  unfolding when
  when-Spends true hm = hm
  when-Spends false hm = Spends-pure tt

  pub dp_io-Spends : Spends count v (dl_penalty v) (dp_io bus)
  unfolding dp_io dl_penalty ◌>>=◌ regs
  dp_io-Spends = record {
    at = λ c h.
        subst
          (λ b.
            (count (dp_io bus c).1.env ≡ count c.env + (if b then 1 else 0))
            × Same (dp_io bus c).1.regs v)
          h.dl ((when-Spends (dl_set c.regs) io_pc1-Spends).at c h);
  }
