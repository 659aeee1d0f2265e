-- ===== src/W65816/Counted/Inline.antt =====
-- The bodies of the switch that use the bus themselves.
use chippy.Prelude.{ℕ, ◌+◌, ◌≡◌, refl, Bool, true, false, ap, arith}
use chippy.Cpu.State.{Env}
use chippy.W65816.State.{Bus24, Regs, ◌>>=◌, pure}
use chippy.W65816.Width.{m_wide, x_wide}
use chippy.W65816.Access.{read_imm}
use chippy.W65816.Modes.{b2i}
use chippy.W65816.Kernels.{Rmw, acc_rmw}
use chippy.W65816.Control.{plp816}
use chippy.W65816.Inline.{
  internal, op_xba, immediate, op_sep, op_rep, push_value, push_reg, pull_value, pull_reg,
  push_byte, op_plp, op_plb, op_phd, op_pld, op_pea, op_pei, op_per,
}
use chippy.W65816.Counted.Rules.{
  CountsOn, Same, Steady, Spends, Spends-on_regs, Spends-bind, Pays, Pays-pure, Pays-bind,
  Pays-regs, Pays-change, Pays-then, Pays-last, Pays-on_regs,
}
use chippy.W65816.Counted.Access.{
  fetch816-Spends, fetch16-Spends, io816-Spends, io_pc1-Spends, dp_io-Spends,
  read_dp_word_wrap-Spends,
}
use chippy.W65816.Counted.Stack.{
  sp_push8-Spends, sp_pull8-Spends, sp_push16-Spends, sp_pull16-Spends, sp_push16_new-Spends,
  sp_pull16_new-Spends, sp_reforce-Spends,
}
use chippy.W65816.Counted.Modes.{dl-Same}
use chippy.W65816.Counted.Kernels.{CasePays}

-- A width that registers with the same accesses share.
abbrev pub Width : (Regs → Bool) → Type 0
Width width = (r v : Regs) → Same r v → width r ≡ width v

pub m_wide-Width : Width m_wide
m_wide-Width r v h = h.m

pub x_wide-Width : Width x_wide
x_wide-Width r v h = h.x

module _ {W : Type 0} {count : Env W → ℕ} (bus : Bus24 W) (counted : CountsOn bus count) where
  pub internal-CasePays : (f : Regs → Regs) → CasePays bus counted (internal bus f)
  unfolding internal
  internal-CasePays f v =
      Pays-change f _ λ w. Pays-bind (io816-Spends bus counted) λ _. Pays-pure _ refl

  pub op_xba-CasePays : CasePays bus counted (op_xba bus)
  unfolding op_xba
  op_xba-CasePays v = Pays-change _ _ λ w.
      Pays-bind (io816-Spends bus counted)
        λ _. Pays-bind (io816-Spends bus counted) λ _. Pays-pure _ refl

  read_imm-Pays : {v : Regs} (wide : Bool) → Pays count v 1 (λ p. 2 + p.1) (read_imm bus wide)
  unfolding read_imm
  read_imm-Pays true =
      Pays-bind (fetch816-Spends bus counted)
        λ lo. Pays-bind (fetch816-Spends bus counted) λ hi. Pays-pure _ refl
  read_imm-Pays false = Pays-bind (fetch816-Spends bus counted) λ lo. Pays-pure _ refl

  pub immediate-CasePays :
      (width : Regs → Bool) (f : ℕ → Regs → Regs) → CasePays bus counted (immediate bus width f)
  unfolding immediate
  immediate-CasePays width f v =
      Pays-regs
        λ r _. Pays-then (read_imm-Pays (width r)) λ p w. Pays-change _ _ λ w. Pays-pure _ refl

  pub op_sep-CasePays : CasePays bus counted (op_sep bus)
  unfolding op_sep
  op_sep-CasePays v =
      Pays-bind (fetch816-Spends bus counted)
        λ mask. Pays-change _ _ λ w. Pays-bind (io_pc1-Spends bus counted) λ _. Pays-pure _ refl

  pub op_rep-CasePays : CasePays bus counted (op_rep bus)
  unfolding op_rep
  op_rep-CasePays v =
      Pays-bind (fetch816-Spends bus counted)
        λ mask. Pays-change _ _ λ w. Pays-bind (io_pc1-Spends bus counted) λ _. Pays-pure _ refl

  acc_rmw-Pays : {v : Regs} (fn : Rmw) → Pays count v 1 (λ _. 2) (acc_rmw bus fn)
  unfolding acc_rmw
  acc_rmw-Pays fn = Pays-change _ _ λ w. Pays-last (io816-Spends bus counted) λ _. refl

  pub acc_rmw-CasePays : (fn : Rmw) → CasePays bus counted (acc_rmw bus fn >>= λ _. pure 2)
  acc_rmw-CasePays fn v = Pays-then (acc_rmw-Pays fn) λ _ w. Pays-pure 2 refl

  push_value-Spends :
      {v : Regs} (wide : Bool) (a lo : ℕ) → Spends count v (1 + b2i wide) (push_value bus wide a lo)
  unfolding push_value b2i
  push_value-Spends true a lo = sp_push16-Spends bus counted a
  push_value-Spends false a lo = sp_push8-Spends bus counted lo

  pub push_reg-CasePays :
      (width : Regs → Bool) (a lo : Regs → ℕ)
      → Width width
      → CasePays bus counted (push_reg bus width a lo)
  unfolding push_reg
  push_reg-CasePays width a lo same v = Pays-bind (io816-Spends bus counted) λ _. Pays-regs λ r h.
      Pays-bind (push_value-Spends (width r) _ _) λ _.
        Pays-regs λ r' h'. Pays-pure _ (omega (arith, ap b2i (same r v h), ap b2i (same r' v h')))

  pull_value-Spends :
      {v : Regs} (wide : Bool) (f g : ℕ → Regs → Regs)
      → ((b : ℕ) → Steady (f b))
      → ((b : ℕ) → Steady (g b))
      → Spends count v (1 + b2i wide) (pull_value bus wide f g)
  unfolding pull_value b2i
  pull_value-Spends true f g hf hg =
      Spends-bind (sp_pull16-Spends bus counted) λ b. Spends-on_regs _ (hf b)
  pull_value-Spends false f g hf hg =
      Spends-bind (sp_pull8-Spends bus counted) λ b. Spends-on_regs _ (hg b)

  pub pull_reg-CasePays :
      (width : Regs → Bool) (f g : ℕ → Regs → Regs)
      → Width width
      → ((b : ℕ) → Steady (f b))
      → ((b : ℕ) → Steady (g b))
      → CasePays bus counted (pull_reg bus width f g)
  unfolding pull_reg
  pull_reg-CasePays width f g same hf hg v = Pays-bind (io816-Spends bus counted) λ _.
      Pays-bind (io816-Spends bus counted) λ _. Pays-regs λ r h.
        Pays-bind (pull_value-Spends (width r) f g hf hg) λ _.
          Pays-regs λ r' h'. Pays-pure _ (omega (arith, ap b2i (same r v h), ap b2i (same r' v h')))

  pub push_byte-CasePays : (a : Regs → ℕ) → CasePays bus counted (push_byte bus a)
  unfolding push_byte
  push_byte-CasePays a v =
      Pays-bind (io816-Spends bus counted)
        λ _. Pays-regs λ r _. Pays-bind (sp_push8-Spends bus counted _) λ _. Pays-pure _ refl

  pub plp816-Pays : {v : Regs} → Pays count v 3 (λ _. 4) (plp816 bus)
  unfolding plp816
  plp816-Pays = Pays-bind (sp_pull8-Spends bus counted) λ p. Pays-on_regs _ refl

  pub op_plp-CasePays : CasePays bus counted (op_plp bus)
  unfolding op_plp
  op_plp-CasePays v =
      Pays-bind (io816-Spends bus counted)
        λ _. Pays-bind (io816-Spends bus counted) λ _. Pays-then plp816-Pays λ _ w. Pays-pure 4 refl

  pub op_plb-CasePays : CasePays bus counted (op_plb bus)
  unfolding op_plb
  op_plb-CasePays v = Pays-bind (io816-Spends bus counted) λ _.
      Pays-bind (io816-Spends bus counted)
        λ _. Pays-bind (sp_pull8-Spends bus counted) λ b. Pays-change _ _ λ w. Pays-pure _ refl

  pub op_phd-CasePays : CasePays bus counted (op_phd bus)
  unfolding op_phd
  op_phd-CasePays v = Pays-bind (io816-Spends bus counted) λ _. Pays-regs λ r _.
      Pays-bind (sp_push16_new-Spends bus counted _)
        λ _. Pays-bind (sp_reforce-Spends bus counted) λ _. Pays-pure _ refl

  pub op_pld-CasePays : CasePays bus counted (op_pld bus)
  unfolding op_pld
  op_pld-CasePays v = Pays-bind (io816-Spends bus counted) λ _.
      Pays-bind (io816-Spends bus counted) λ _. Pays-bind (sp_pull16_new-Spends bus counted) λ b.
        Pays-change _ _
          λ w. Pays-bind (sp_reforce-Spends bus counted) λ _. Pays-change _ _ λ w. Pays-pure _ refl

  pub op_pea-CasePays : CasePays bus counted (op_pea bus)
  unfolding op_pea
  op_pea-CasePays v = Pays-bind (fetch16-Spends bus counted) λ b.
      Pays-bind (sp_push16_new-Spends bus counted _)
        λ _. Pays-bind (sp_reforce-Spends bus counted) λ _. Pays-pure _ refl

  pub op_pei-CasePays : CasePays bus counted (op_pei bus)
  unfolding op_pei
  op_pei-CasePays v = Pays-bind (fetch816-Spends bus counted) λ dp.
      Pays-bind (dp_io-Spends bus counted) λ _.
        Pays-bind (read_dp_word_wrap-Spends bus counted dp) λ b.
          Pays-bind (sp_push16_new-Spends bus counted _) λ _.
            Pays-bind (sp_reforce-Spends bus counted)
              λ _. Pays-regs λ r h. Pays-pure _ (omega (arith, dl-Same h))

  pub op_per-CasePays : CasePays bus counted (op_per bus)
  unfolding op_per
  op_per-CasePays v = Pays-bind (fetch16-Spends bus counted) λ disp.
      Pays-bind (io_pc1-Spends bus counted) λ _. Pays-regs λ r _.
        Pays-bind (sp_push16_new-Spends bus counted _)
          λ _. Pays-bind (sp_reforce-Spends bus counted) λ _. Pays-pure _ refl

pub ruleset inline_pays = (
  m_wide-Width, x_wide-Width, internal-CasePays, op_xba-CasePays, immediate-CasePays,
  op_sep-CasePays, op_rep-CasePays, acc_rmw-CasePays, push_reg-CasePays, pull_reg-CasePays,
  push_byte-CasePays, op_plp-CasePays, op_plb-CasePays, op_phd-CasePays, op_pld-CasePays,
  op_pea-CasePays, op_pei-CasePays, op_per-CasePays,
)
