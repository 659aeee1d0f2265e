-- ===== src/W65816/Counted/Control.antt =====
-- Jumps, calls, returns, branches and interrupts.
use chippy.Prelude.{ℕ, refl, Bool, true, false, arith, if◌then◌else◌}
use chippy.Cpu.State.{Env}
use chippy.W65816.State.{Bus24, Regs, ◌>>=◌, pure, on_regs}
use chippy.W65816.Access.{io_pc1}
use chippy.W65816.Modes.{when}
use chippy.W65816.Control.{
  set_pc, branch_to, branch816, branch_if, brl, push_state, enter, brk, cop,
}
use chippy.W65816.Inline.{
  jmp_abs, jml_long, jmp_ind, read_pc, jmp_ind_x, jml_ind, jsr_abs, jsl_long, jsr_ind_x, op_rts,
  op_rtl, rti_bank, op_rti, op_wdm,
}
use chippy.W65816.Counted.Rules.{
  CountsOn, Steady, Spends, Spends-pure, Spends-regs, Spends-on_regs, Spends-bind, Spends-read24,
  Pays, Pays-pure, Pays-bind, Pays-regs, Pays-change, Pays-then, Pays-ahead,
}
use chippy.W65816.Counted.Access.{
  pc-Steady, fetch816-Spends, fetch16-Spends, fetch24-Spends, io816-Spends, io_pc1-Spends,
  read_data-Spends, pin_none-Spends, pin_vector-Spends,
}
use chippy.W65816.Counted.Stack.{
  sp_push8-Spends, sp_pull8-Spends, sp_push16-Spends, sp_pull16-Spends, sp_push_new-Spends,
  sp_pull_new-Spends, sp_push16_new-Spends, sp_pull16_new-Spends, sp_reforce-Spends,
}
use chippy.W65816.Counted.Kernels.{CasePays}
use chippy.W65816.Counted.Inline.{plp816-Pays}

set_pc-Steady : (v : ℕ) → Steady (set_pc v)
unfolding set_pc
set_pc-Steady v r = pc-Steady (λ _. v) r

module _ {W : Type 0} {count : Env W → ℕ} (bus : Bus24 W) (counted : CountsOn bus count) where
  pub jmp_abs-CasePays : CasePays bus counted (jmp_abs bus)
  unfolding jmp_abs
  jmp_abs-CasePays v =
      Pays-bind (fetch16-Spends bus counted) λ t. Pays-change _ _ λ w. Pays-pure _ refl

  pub jml_long-CasePays : CasePays bus counted (jml_long bus)
  unfolding jml_long
  jml_long-CasePays v =
      Pays-bind (fetch24-Spends bus counted) λ t. Pays-change _ _ λ w. Pays-pure _ refl

  pub jmp_ind-CasePays : CasePays bus counted (jmp_ind bus)
  unfolding jmp_ind
  jmp_ind-CasePays v = Pays-bind (fetch16-Spends bus counted) λ ptr.
      Pays-bind (read_data-Spends bus counted _)
        λ lo. Pays-bind (Spends-read24 bus counted _) λ hi. Pays-change _ _ λ w. Pays-pure _ refl

  read_pc-Spends : {v : Regs} (base : ℕ) → Spends count v 2 (read_pc bus base)
  unfolding read_pc
  read_pc-Spends base = Spends-bind Spends-regs λ r.
      Spends-bind (read_data-Spends bus counted _)
        λ lo. Spends-bind (Spends-read24 bus counted _) λ hi. Spends-on_regs _ (set_pc-Steady _)

  pub jmp_ind_x-CasePays : CasePays bus counted (jmp_ind_x bus)
  unfolding jmp_ind_x
  jmp_ind_x-CasePays v = Pays-bind (fetch16-Spends bus counted) λ base.
      Pays-bind (io_pc1-Spends bus counted)
        λ _. Pays-bind (read_pc-Spends base) λ _. Pays-pure _ refl

  pub jml_ind-CasePays : CasePays bus counted (jml_ind bus)
  unfolding jml_ind
  jml_ind-CasePays v = Pays-bind (fetch16-Spends bus counted) λ ptr.
      Pays-bind (read_data-Spends bus counted _) λ lo.
        Pays-bind (read_data-Spends bus counted _) λ hi.
          Pays-bind (read_data-Spends bus counted _) λ bank. Pays-change _ _ λ w. Pays-pure _ refl

  pub jsr_abs-CasePays : CasePays bus counted (jsr_abs bus)
  unfolding jsr_abs
  jsr_abs-CasePays v = Pays-bind (fetch16-Spends bus counted) λ t.
      Pays-bind (io_pc1-Spends bus counted) λ _.
        Pays-regs λ r _.
          Pays-bind (sp_push16-Spends bus counted _) λ _. Pays-change _ _ λ w. Pays-pure _ refl

  pub jsl_long-CasePays : CasePays bus counted (jsl_long bus)
  unfolding jsl_long
  jsl_long-CasePays v = Pays-bind (fetch816-Spends bus counted) λ lo.
      Pays-bind (fetch816-Spends bus counted) λ mid. Pays-regs λ r _.
        Pays-bind (sp_push_new-Spends bus counted _) λ _.
          Pays-bind (pin_none-Spends bus counted) λ _. Pays-regs λ r _.
            Pays-bind (Spends-read24 bus counted _) λ _.
              Pays-bind (fetch816-Spends bus counted) λ hi. Pays-regs λ r _.
                Pays-bind (sp_push16_new-Spends bus counted _) λ _.
                  Pays-bind (sp_reforce-Spends bus counted)
                    λ _. Pays-change _ _ λ w. Pays-pure _ refl

  pub jsr_ind_x-CasePays : CasePays bus counted (jsr_ind_x bus)
  unfolding jsr_ind_x
  jsr_ind_x-CasePays v = Pays-bind (fetch816-Spends bus counted) λ lo. Pays-regs λ r _.
      Pays-bind (sp_push16-Spends bus counted _) λ _. Pays-bind (fetch816-Spends bus counted) λ hi.
        Pays-bind (io_pc1-Spends bus counted)
          λ _. Pays-bind (read_pc-Spends _) λ _. Pays-pure _ refl

  pub op_rts-CasePays : CasePays bus counted (op_rts bus)
  unfolding op_rts
  op_rts-CasePays v = Pays-bind (io816-Spends bus counted) λ _.
      Pays-bind (io816-Spends bus counted) λ _. Pays-bind (sp_pull16-Spends bus counted) λ lo.
        Pays-bind (pin_none-Spends bus counted) λ _.
          Pays-regs λ r _.
            Pays-bind (Spends-read24 bus counted _) λ _. Pays-change _ _ λ w. Pays-pure _ refl

  pub op_rtl-CasePays : CasePays bus counted (op_rtl bus)
  unfolding op_rtl
  op_rtl-CasePays v = Pays-bind (io816-Spends bus counted) λ _.
      Pays-bind (io816-Spends bus counted) λ _. Pays-bind (sp_pull16_new-Spends bus counted) λ lo.
        Pays-bind (sp_pull_new-Spends bus counted) λ bank.
          Pays-change _ _ λ w.
            Pays-bind (sp_reforce-Spends bus counted) λ _. Pays-change _ _ λ w. Pays-pure _ refl

  rti_bank-Pays : {v : Regs} (e : Bool) → Pays count v 6 (λ n. n) (rti_bank bus e)
  unfolding rti_bank
  rti_bank-Pays true = Pays-pure 6 refl
  rti_bank-Pays false =
      Pays-bind (sp_pull8-Spends bus counted) λ bank. Pays-change _ _ λ w. Pays-pure _ refl

  pub op_rti-CasePays : CasePays bus counted (op_rti bus)
  unfolding op_rti
  op_rti-CasePays v = Pays-bind (io816-Spends bus counted) λ _.
      Pays-bind (io816-Spends bus counted) λ _. Pays-then (plp816-Pays bus counted) λ _ w.
        Pays-bind (sp_pull16-Spends bus counted)
          λ pc. Pays-change _ _ λ w. Pays-regs λ r _. rti_bank-Pays r.e

  pub op_wdm-CasePays : CasePays bus counted (op_wdm bus)
  unfolding op_wdm
  op_wdm-CasePays v = Pays-bind (pin_none-Spends bus counted) λ _.
      Pays-regs
        λ r _. Pays-bind (Spends-read24 bus counted _) λ _. Pays-change _ _ λ w. Pays-pure _ refl

  -- The page-cross cycle of a branch.
  far-Pays :
      {v : Regs} (far : Bool) (target : ℕ)
      → Pays count v 3
          (λ n. n)
          (when far (io_pc1 bus) >>= λ _.
            on_regs (set_pc target) >>= λ _. pure (if far then 4 else 3))
  unfolding when
  far-Pays true target =
      Pays-bind (io_pc1-Spends bus counted) λ _. Pays-change _ _ λ w. Pays-pure _ refl
  far-Pays false target = Pays-bind (Spends-pure tt) λ _. Pays-change _ _ λ w. Pays-pure _ refl

  branch816-CasePays : (take : Bool) → CasePays bus counted (branch816 bus take)
  unfolding branch816 branch_to
  branch816-CasePays false v = Pays-bind (fetch816-Spends bus counted) λ _. Pays-pure _ refl
  branch816-CasePays true v =
      Pays-bind (fetch816-Spends bus counted)
        λ disp. Pays-bind (io_pc1-Spends bus counted) λ _. Pays-regs λ r _. far-Pays _ _

  pub branch_if-CasePays : (test : Regs → Bool) → CasePays bus counted (branch_if bus test)
  unfolding branch_if
  branch_if-CasePays test v = Pays-regs λ r _. branch816-CasePays (test r) v

  pub brl-CasePays : CasePays bus counted (brl bus)
  unfolding brl
  brl-CasePays v =
      Pays-bind (fetch16-Spends bus counted)
        λ disp. Pays-bind (io_pc1-Spends bus counted) λ _. Pays-change _ _ λ w. Pays-pure _ refl

  -- The state goes to the stack in two accesses fewer than an entry has, and one fetch.
  push_state-Pays :
      {v : Regs} (emu : Regs → ℕ) (e : Bool) → Pays count v 4 (λ n. n) (push_state bus emu e)
  unfolding push_state
  push_state-Pays emu true = Pays-regs λ r _.
      Pays-bind (sp_push16-Spends bus counted _)
        λ _. Pays-regs λ r _. Pays-bind (sp_push8-Spends bus counted _) λ _. Pays-pure _ refl
  push_state-Pays emu false = Pays-regs λ r _. Pays-bind (sp_push8-Spends bus counted _) λ _.
      Pays-bind (sp_push16-Spends bus counted _)
        λ _. Pays-bind (sp_push8-Spends bus counted _) λ _. Pays-pure _ refl

  pub enter-Pays :
      {v : Regs} (emu : Regs → ℕ) (vec_emu vec_nat : ℕ)
      → Pays count v 2 (λ n. n) (enter bus emu vec_emu vec_nat)
  unfolding enter
  enter-Pays emu vec_emu vec_nat = Pays-regs λ r _. Pays-ahead 2 (push_state-Pays emu r.e) λ cyc w.
      Pays-change _ _ λ w. Pays-regs λ r _. Pays-bind (pin_vector-Spends bus counted) λ _.
        Pays-bind (Spends-read24 bus counted _) λ lo.
          Pays-bind (Spends-read24 bus counted _)
            λ hi. Pays-change _ _ λ w. Pays-pure cyc (omega arith)

  pub brk-CasePays : CasePays bus counted (brk bus)
  unfolding brk
  brk-CasePays v = Pays-bind (fetch816-Spends bus counted) λ _. enter-Pays _ _ _

  pub cop-CasePays : CasePays bus counted (cop bus)
  unfolding cop
  cop-CasePays v = Pays-bind (fetch816-Spends bus counted) λ _. enter-Pays _ _ _

pub ruleset control_pays = (
  jmp_abs-CasePays, jml_long-CasePays, jmp_ind-CasePays, jmp_ind_x-CasePays, jml_ind-CasePays,
  jsr_abs-CasePays, jsl_long-CasePays, jsr_ind_x-CasePays, op_rts-CasePays, op_rtl-CasePays,
  op_rti-CasePays, op_wdm-CasePays, branch_if-CasePays, brl-CasePays, brk-CasePays, cop-CasePays,
)
