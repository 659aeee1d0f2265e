-- ===== src/W65816/Locked/Cases.antt =====
-- Every case of the switch but the block moves keeps the locked registers.
use chippy.Prelude.{ℕ, true, List, [], ◌∷◌, ◌++◌}
use chippy.W65816.State.{Bus24, M}
use chippy.W65816.Kernels.{Rmw}
use chippy.W65816.Modes.{Ea}
use chippy.W65816.Cases.{
  Case, alu_cases, flag_cases, count_cases, transfer_cases, immediate_cases, mode_cases,
  index_cases, store_zero_cases, compare_cases, memory_cases, acc_cases, rmw_cases, test_cases,
  stack_cases, jump_cases, branch_cases, interrupt_cases, regular_cases, ora_cases, and_cases,
  eor_cases, adc_cases, sta_cases, lda_cases, cmp_cases, sbc_cases,
}
use chippy.W65816.Counted.Calm.{calm_rules}
use chippy.W65816.Counted.Sums.{CalmRmw, sum_rules}
use chippy.W65816.Locked.Rules.{Leads, Leads-pure, Leads-on_regs, Leads-Calm, Leads-chain}
use chippy.W65816.Locked.Registers.{
  inc_dec_index-IsLocked, transfer_to_index-IsLocked, load_index-IsLocked, txs-IsLocked,
  tcs-IsLocked, tcd-IsLocked,
}
use chippy.W65816.Locked.Status.{xce-IsLocked}
use chippy.W65816.Locked.Access.{mode_leads}
use chippy.W65816.Locked.Ops.{op_leads, inc_dec_acc-Calm, transfer_to_acc-Calm, tdc-Calm, tsc-Calm}
use chippy.W65816.Locked.Control.{control_leads}

ruleset register_rules = (
  Leads-Calm, Leads-on_regs, calm_rules, sum_rules, inc_dec_index-IsLocked,
  transfer_to_index-IsLocked, load_index-IsLocked, txs-IsLocked, tcs-IsLocked, tcd-IsLocked,
  xce-IsLocked, inc_dec_acc-Calm, transfer_to_acc-Calm, tdc-Calm, tsc-Calm,
)

module _ {W : Type 0} (bus : Bus24 W) where
  abbrev pub AllLock : List (Case W) → Type 0
  AllLock [] = Unit
  AllLock ((op, body) ∷ rest) = Leads true true body × AllLock rest

  AllLock-append : (l k : List (Case W)) → AllLock l → AllLock k → AllLock (l ++ k)
  AllLock-append [] k hl hk = hk
  AllLock-append ((op, body) ∷ l) k hl hk = (hl.0, AllLock-append l k hl.1 hk)

  alu_cases-AllLock :
      (base : ℕ) (kernel : Ea × ℕ → M W ℕ)
      → ((e : Ea × ℕ) → Leads true true (kernel e))
      → AllLock (alu_cases bus base kernel)
  unfolding alu_cases
  alu_cases-AllLock base kernel h = search (mode_leads, Leads-chain, h) depth 20

  flag_cases-AllLock : AllLock (flag_cases bus)
  unfolding flag_cases
  flag_cases-AllLock = search (op_leads, register_rules, Leads-chain, Leads-pure) depth 20

  count_cases-AllLock : AllLock (count_cases bus)
  unfolding count_cases
  count_cases-AllLock = search (op_leads, register_rules, Leads-chain, Leads-pure) depth 20

  transfer_cases-AllLock : AllLock (transfer_cases bus)
  unfolding transfer_cases
  transfer_cases-AllLock = search (op_leads, register_rules, Leads-chain, Leads-pure) depth 20

  immediate_cases-AllLock : AllLock (immediate_cases bus)
  unfolding immediate_cases
  immediate_cases-AllLock = search (op_leads, register_rules, Leads-chain, Leads-pure) depth 20

  mode_cases-AllLock : AllLock (mode_cases bus)
  unfolding mode_cases
  mode_cases-AllLock = search (op_leads, register_rules, Leads-chain, Leads-pure) depth 20

  acc_cases-AllLock : AllLock (acc_cases bus)
  unfolding acc_cases
  acc_cases-AllLock = search (op_leads, register_rules, Leads-chain, Leads-pure) depth 20

  stack_cases-AllLock : AllLock (stack_cases bus)
  unfolding stack_cases
  stack_cases-AllLock = search (op_leads, control_leads) depth 20

  jump_cases-AllLock : AllLock (jump_cases bus)
  unfolding jump_cases
  jump_cases-AllLock = search (op_leads, control_leads) depth 20

  branch_cases-AllLock : AllLock (branch_cases bus)
  unfolding branch_cases
  branch_cases-AllLock = search (op_leads, control_leads) depth 20

  interrupt_cases-AllLock : AllLock (interrupt_cases bus)
  unfolding interrupt_cases
  interrupt_cases-AllLock = search (op_leads, control_leads) depth 20

  index_cases-AllLock : AllLock (index_cases bus)
  unfolding index_cases
  index_cases-AllLock = search (mode_leads, Leads-chain, op_leads, register_rules) depth 20

  store_zero_cases-AllLock : AllLock (store_zero_cases bus)
  unfolding store_zero_cases
  store_zero_cases-AllLock = search (mode_leads, Leads-chain, op_leads, register_rules) depth 20

  compare_cases-AllLock : AllLock (compare_cases bus)
  unfolding compare_cases
  compare_cases-AllLock = search (mode_leads, Leads-chain, op_leads, register_rules) depth 20

  test_cases-AllLock : AllLock (test_cases bus)
  unfolding test_cases
  test_cases-AllLock = search (mode_leads, Leads-chain, op_leads, register_rules) depth 20

  memory_cases-AllLock :
      (dp abs dp_x abs_x : ℕ) (fn : Rmw)
      → CalmRmw fn
      → AllLock (memory_cases bus dp abs dp_x abs_x fn)
  unfolding memory_cases
  memory_cases-AllLock dp abs dp_x abs_x fn h = search (mode_leads, Leads-chain, op_leads) depth 20

  rmw_cases-AllLock : AllLock (rmw_cases bus)
  unfolding rmw_cases
  rmw_cases-AllLock =
      search
        (AllLock-append, acc_cases-AllLock, memory_cases-AllLock, test_cases-AllLock, sum_rules)
        depth 40

  pub regular_cases-AllLock : AllLock (regular_cases bus)
  unfolding regular_cases ora_cases and_cases eor_cases adc_cases sta_cases lda_cases cmp_cases
      sbc_cases
  regular_cases-AllLock =
      search
        (
          AllLock-append, flag_cases-AllLock, count_cases-AllLock, transfer_cases-AllLock,
          immediate_cases-AllLock, mode_cases-AllLock, alu_cases-AllLock, index_cases-AllLock,
          store_zero_cases-AllLock, compare_cases-AllLock, rmw_cases-AllLock, stack_cases-AllLock,
          jump_cases-AllLock, branch_cases-AllLock, interrupt_cases-AllLock, op_leads,
          register_rules,
        )
        depth 60
