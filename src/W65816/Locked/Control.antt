-- ===== src/W65816/Locked/Control.antt =====
-- The stack instructions and the control flow keep the locked registers.
use chippy.Prelude.{ℕ, ◌+◌, Bool, true, false, u16}
use chippy.W65816.State.{Bus24, Regs, M, ◌>>=◌}
use chippy.W65816.Width.{set_zn}
use chippy.W65816.Stack.{sp_reforce}
use chippy.W65816.Control.{
  add_signed16, set_pc, enter_handler, branch_to, branch816, branch_if, brl, plp816, push_state,
  enter, brk, cop,
}
use chippy.W65816.Inline.{
  push_value, push_reg, push_byte, op_plp, op_plb, op_phd, op_pld, op_pea, op_pei, op_per, jmp_abs,
  jml_long, jmp_ind, read_pc, jmp_ind_x, jml_ind, jsr_abs, jsl_long, jsr_ind_x, op_rts, op_rtl,
  rti_bank, op_rti, op_wdm, op_wai, op_stp,
}
use chippy.W65816.Kept.{Kept-trans, Calm}
use chippy.W65816.Counted.Calm.{flag_i-Kept, flag_d-Kept, set_zn-Kept, set_zn16-Kept}
use chippy.W65816.Locked.Rules.{
  Leads, Leads-pure, Leads-on_regs, Leads-Calm, Leads-bind, Leads-chain, Leads-loose, lead_rules,
}
use chippy.W65816.Locked.Registers.{Kept-free, d-IsLocked}
use chippy.W65816.Locked.Status.{plp-IsLocked}
use chippy.W65816.Locked.Access.{
  access_leads, pc-Calm, set_pc-Calm, sp_push8-Leads, sp_pull8-Leads, sp_push16-Leads,
  sp_pull16-Leads, sp_push_new-Leads, sp_pull_new-Leads, sp_push16_new-Leads, sp_pull16_new-Leads,
  sp_reforce-Leads,
}

pbr-Calm : (b : ℕ) → Calm (λ r. record r { pbr = b })
pbr-Calm b r = Kept-free r.a r.b r.x r.y r.sp r.dbr b r.pc r

far-Calm : (b t : ℕ) → Calm (λ r. record r { pbr = b; pc = t })
far-Calm b t r = Kept-free r.a r.b r.x r.y r.sp r.dbr b t r

dbr-Calm : (b : ℕ) → Calm (λ r. set_zn b (record r { dbr = b }))
dbr-Calm b r = Kept-trans (set_zn-Kept b _) (Kept-free r.a r.b r.x r.y r.sp b r.pbr r.pc r)

enter_handler-Calm : Calm enter_handler
unfolding enter_handler
enter_handler-Calm r =
    Kept-trans (flag_d-Kept false _) (Kept-trans (flag_i-Kept true _) (pbr-Calm 0 r))

module _ {W : Type 0} {t : Bool} where
  -- The stack is in page 1 again from the forced pointer on.
  reforce-chain :
      {A : Type 0} (f : Unit {0} → M W A) → Leads t t (f tt) → Leads false t (sp_reforce >>= f)
  reforce-chain f h = Leads-bind _ _ sp_reforce-Leads λ _. h

module _ {W : Type 0} {s : Bool} (bus : Bus24 W) where
  push_value-Locks : (wide : Bool) (v lo : ℕ) → Leads s s (push_value bus wide v lo)
  unfolding push_value
  push_value-Locks true v lo = sp_push16-Leads bus v
  push_value-Locks false v lo = sp_push8-Leads bus lo

  pub push_reg-Locks : (width : Regs → Bool) (v lo : Regs → ℕ) → Leads s s (push_reg bus width v lo)
  unfolding push_reg
  push_reg-Locks width v lo = search (lead_rules, access_leads, push_value-Locks) depth 40

  pub push_byte-Locks : (v : Regs → ℕ) → Leads s s (push_byte bus v)
  unfolding push_byte
  push_byte-Locks v = search (lead_rules, access_leads, sp_push8-Leads) depth 40

  pub plp816-Locks : Leads s s (plp816 bus)
  unfolding plp816
  plp816-Locks =
      search (lead_rules, access_leads, sp_pull8-Leads, Leads-on_regs, plp-IsLocked) depth 40

  pub op_plp-Locks : Leads s s (op_plp bus)
  unfolding op_plp
  op_plp-Locks = search (lead_rules, access_leads, plp816-Locks) depth 40

  pub op_plb-Locks : Leads s s (op_plb bus)
  unfolding op_plb
  op_plb-Locks = search (lead_rules, access_leads, sp_pull8-Leads, dbr-Calm) depth 40

  pub op_phd-Locks : Leads s s (op_phd bus)
  unfolding op_phd
  op_phd-Locks =
      Leads-loose _ (search (lead_rules, access_leads, sp_push16_new-Leads, reforce-chain) depth 40)

  pub op_pea-Locks : Leads s s (op_pea bus)
  unfolding op_pea
  op_pea-Locks =
      Leads-loose _ (search (lead_rules, access_leads, sp_push16_new-Leads, reforce-chain) depth 40)

  pub op_pei-Locks : Leads s s (op_pei bus)
  unfolding op_pei
  op_pei-Locks =
      Leads-loose _ (search (lead_rules, access_leads, sp_push16_new-Leads, reforce-chain) depth 40)

  pub op_per-Locks : Leads s s (op_per bus)
  unfolding op_per
  op_per-Locks =
      Leads-loose _ (search (lead_rules, access_leads, sp_push16_new-Leads, reforce-chain) depth 40)

  pub op_pld-Locks : Leads s s (op_pld bus)
  unfolding op_pld
  op_pld-Locks = Leads-loose _ (
      search
        (
          lead_rules, access_leads, sp_pull16_new-Leads, Leads-on_regs, d-IsLocked, set_zn16-Kept,
          reforce-chain,
        )
        depth 40)

  pub jmp_abs-Locks : Leads s s (jmp_abs bus)
  unfolding jmp_abs
  jmp_abs-Locks = search (lead_rules, access_leads, set_pc-Calm) depth 40

  pub jml_long-Locks : Leads s s (jml_long bus)
  unfolding jml_long
  jml_long-Locks = search (lead_rules, access_leads, far-Calm) depth 40

  pub jmp_ind-Locks : Leads s s (jmp_ind bus)
  unfolding jmp_ind
  jmp_ind-Locks = search (lead_rules, access_leads, set_pc-Calm) depth 40

  read_pc-Locks : (base : ℕ) → Leads s s (read_pc bus base)
  unfolding read_pc
  read_pc-Locks base = search (lead_rules, access_leads, set_pc-Calm) depth 40

  pub jmp_ind_x-Locks : Leads s s (jmp_ind_x bus)
  unfolding jmp_ind_x
  jmp_ind_x-Locks = search (lead_rules, access_leads, read_pc-Locks) depth 40

  pub jml_ind-Locks : Leads s s (jml_ind bus)
  unfolding jml_ind
  jml_ind-Locks = search (lead_rules, access_leads, far-Calm) depth 40

  pub jsr_abs-Locks : Leads s s (jsr_abs bus)
  unfolding jsr_abs
  jsr_abs-Locks = search (lead_rules, access_leads, sp_push16-Leads, set_pc-Calm) depth 40

  pub jsl_long-Locks : Leads s s (jsl_long bus)
  unfolding jsl_long
  jsl_long-Locks = Leads-loose _ (
      search
        (lead_rules, access_leads, sp_push_new-Leads, sp_push16_new-Leads, far-Calm, reforce-chain)
        depth 40)

  pub jsr_ind_x-Locks : Leads s s (jsr_ind_x bus)
  unfolding jsr_ind_x
  jsr_ind_x-Locks = search (lead_rules, access_leads, sp_push16-Leads, read_pc-Locks) depth 40

  pub op_rts-Locks : Leads s s (op_rts bus)
  unfolding op_rts
  op_rts-Locks = search (lead_rules, access_leads, sp_pull16-Leads, set_pc-Calm) depth 40

  pub op_rtl-Locks : Leads s s (op_rtl bus)
  unfolding op_rtl
  op_rtl-Locks = Leads-loose _ (
      search
        (
          lead_rules, access_leads, sp_pull_new-Leads, sp_pull16_new-Leads, pbr-Calm, set_pc-Calm,
          reforce-chain,
        )
        depth 40)

  rti_bank-Locks : (e : Bool) → Leads s s (rti_bank bus e)
  unfolding rti_bank
  rti_bank-Locks true = Leads-pure 6
  rti_bank-Locks false = search (lead_rules, sp_pull8-Leads, pbr-Calm) depth 40

  pub op_rti-Locks : Leads s s (op_rti bus)
  unfolding op_rti
  op_rti-Locks =
      search (lead_rules, access_leads, plp816-Locks, sp_pull16-Leads, set_pc-Calm, rti_bank-Locks)
        depth 40

  pub op_wdm-Locks : Leads s s (op_wdm bus)
  unfolding op_wdm set_pc
  op_wdm-Locks = search (lead_rules, access_leads, pc-Calm (λ r. u16 (r.pc + 1))) depth 40

  branch_to-Locks : (disp : ℕ) (r : Regs) → Leads s s (branch_to bus disp r)
  unfolding branch_to
  branch_to-Locks disp r = search (lead_rules, access_leads, set_pc-Calm) depth 40

  branch816-Locks : (take : Bool) → Leads s s (branch816 bus take)
  unfolding branch816
  branch816-Locks true = search (lead_rules, access_leads, branch_to-Locks) depth 40
  branch816-Locks false = search (lead_rules, access_leads) depth 40

  pub branch_if-Locks : (test : Regs → Bool) → Leads s s (branch_if bus test)
  unfolding branch_if
  branch_if-Locks test = search (lead_rules, access_leads, branch816-Locks) depth 40

  pub brl-Locks : Leads s s (brl bus)
  unfolding brl set_pc
  brl-Locks = Leads-chain _ _ (search (access_leads)) λ disp.
      Leads-chain _ _ (search (access_leads)) λ _.
        Leads-chain _ _ (Leads-Calm _ (pc-Calm (λ r. add_signed16 r.pc disp))) λ _. Leads-pure 4

  push_state-Locks : (emu : Regs → ℕ) (e : Bool) → Leads s s (push_state bus emu e)
  unfolding push_state
  push_state-Locks emu true = search (lead_rules, sp_push8-Leads, sp_push16-Leads) depth 40
  push_state-Locks emu false = search (lead_rules, sp_push8-Leads, sp_push16-Leads) depth 40

  pub enter-Locks :
      (emu : Regs → ℕ) (vec_emu : ℕ) (vec_nat : ℕ) → Leads s s (enter bus emu vec_emu vec_nat)
  unfolding enter
  enter-Locks emu vec_emu vec_nat =
      search (lead_rules, access_leads, push_state-Locks, enter_handler-Calm, set_pc-Calm) depth 40

  pub brk-Locks : Leads s s (brk bus)
  unfolding brk
  brk-Locks = search (lead_rules, access_leads, enter-Locks) depth 40

  pub cop-Locks : Leads s s (cop bus)
  unfolding cop
  cop-Locks = search (lead_rules, access_leads, enter-Locks) depth 40

module _ {W : Type 0} {s : Bool} where
  pub op_wai-Locks : Leads {W = W} s s op_wai
  unfolding op_wai
  op_wai-Locks = search (lead_rules) depth 20

  pub op_stp-Locks : Leads {W = W} s s op_stp
  unfolding op_stp
  op_stp-Locks = search (lead_rules) depth 20

pub ruleset control_leads = (
  push_reg-Locks, push_byte-Locks, plp816-Locks, op_plp-Locks, op_plb-Locks, op_phd-Locks,
  op_pea-Locks, op_pei-Locks, op_per-Locks, op_pld-Locks, jmp_abs-Locks, jml_long-Locks,
  jmp_ind-Locks, jmp_ind_x-Locks, jml_ind-Locks, jsr_abs-Locks, jsl_long-Locks, jsr_ind_x-Locks,
  op_rts-Locks, op_rtl-Locks, op_rti-Locks, op_wdm-Locks, branch_if-Locks, brl-Locks, enter-Locks,
  brk-Locks, cop-Locks, op_wai-Locks, op_stp-Locks,
)
