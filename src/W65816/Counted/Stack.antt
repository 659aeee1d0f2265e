-- ===== src/W65816/Counted/Stack.antt =====
-- What the stack spends.
use chippy.Prelude.{ℕ, refl, if-elim}
use chippy.Cpu.State.{Env}
use chippy.W65816.State.{Bus24, Regs}
use chippy.W65816.Width.{m_wide, x_wide, set_sp16}
use chippy.W65816.Modes.{dl_set}
use chippy.W65816.Stack.{
  sp_up, sp_down, sp_set_raw, sp_push8, sp_pull8, sp_push16, sp_pull16, sp_push_new, sp_pull_new,
  sp_push16_new, sp_pull16_new, sp_reforce, sp_reforce_regs,
}
use chippy.W65816.Counted.Rules.{
  CountsOn, Same, Steady, Spends, Spends-pure, Spends-regs, Spends-on_regs, Spends-bind,
}
use chippy.W65816.Counted.Access.{read_data-Spends, write_data-Spends}

sp-Same : (a b : ℕ) (r : Regs) → Same (record r { sp = a; sp_hi = b }) r
unfolding dl_set m_wide x_wide
sp-Same a b r = record { dl = refl; m = refl; x = refl; e = refl }

pub sp_up-Steady : Steady sp_up
unfolding sp_up
sp_up-Steady r =
    if-elim (λ s. Same s r) r.e _ _ (λ _. sp-Same _ r.sp_hi r)
      (λ _. unfold set_sp16 in sp-Same _ _ r)

sp_down-Steady : Steady sp_down
unfolding sp_down
sp_down-Steady r =
    if-elim (λ s. Same s r) r.e _ _ (λ _. sp-Same _ r.sp_hi r)
      (λ _. unfold set_sp16 in sp-Same _ _ r)

module _ {W : Type 0} {count : Env W → ℕ} {v : Regs} (bus : Bus24 W)
    (counted : CountsOn bus count) where
  pub sp_push8-Spends : (b : ℕ) → Spends count v 1 (sp_push8 bus b)
  unfolding sp_push8
  sp_push8-Spends b =
      Spends-bind Spends-regs
        λ r. Spends-bind (write_data-Spends bus counted _ b) λ _. Spends-on_regs _ sp_down-Steady

  pub sp_pull8-Spends : Spends count v 1 (sp_pull8 bus)
  unfolding sp_pull8
  sp_pull8-Spends =
      Spends-bind (Spends-on_regs _ sp_up-Steady)
        λ _. Spends-bind Spends-regs λ r. read_data-Spends bus counted _

  pub sp_push16-Spends : (b : ℕ) → Spends count v 2 (sp_push16 bus b)
  unfolding sp_push16
  sp_push16-Spends b = Spends-bind (sp_push8-Spends _) λ _. sp_push8-Spends _

  pub sp_pull16-Spends : Spends count v 2 (sp_pull16 bus)
  unfolding sp_pull16
  sp_pull16-Spends =
      Spends-bind sp_pull8-Spends λ lo. Spends-bind sp_pull8-Spends λ hi. Spends-pure _

  pub sp_push_new-Spends : (b : ℕ) → Spends count v 1 (sp_push_new bus b)
  unfolding sp_push_new sp_set_raw
  sp_push_new-Spends b = Spends-bind Spends-regs λ r.
      Spends-bind (write_data-Spends bus counted _ b) λ _. Spends-on_regs _ (λ r. sp-Same _ _ r)

  pub sp_pull_new-Spends : Spends count v 1 (sp_pull_new bus)
  unfolding sp_pull_new sp_set_raw
  sp_pull_new-Spends =
      Spends-bind (Spends-on_regs _ (λ r. sp-Same _ _ r))
        λ _. Spends-bind Spends-regs λ r. read_data-Spends bus counted _

  pub sp_push16_new-Spends : (b : ℕ) → Spends count v 2 (sp_push16_new bus b)
  unfolding sp_push16_new
  sp_push16_new-Spends b = Spends-bind (sp_push_new-Spends _) λ _. sp_push_new-Spends _

  pub sp_pull16_new-Spends : Spends count v 2 (sp_pull16_new bus)
  unfolding sp_pull16_new
  sp_pull16_new-Spends =
      Spends-bind sp_pull_new-Spends λ lo. Spends-bind sp_pull_new-Spends λ hi. Spends-pure _

  pub sp_reforce-Spends : Spends count v 0 sp_reforce
  unfolding sp_reforce sp_reforce_regs
  sp_reforce-Spends = Spends-on_regs _ (λ r. sp-Same r.sp _ r)
