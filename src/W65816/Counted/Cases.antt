-- ===== src/W65816/Counted/Cases.antt =====
-- Every case of the switch but the last four pays for its bus accesses.
use chippy.Prelude.{ℕ, List, [], ◌∷◌, ◌++◌}
use chippy.Cpu.State.{Env}
use chippy.W65816.State.{Bus24, M}
use chippy.W65816.Cases.{
  Case, alu_cases, flag_cases, count_cases, transfer_cases, immediate_cases, mode_cases,
  index_cases, store_zero_cases, compare_cases, memory_cases, acc_cases, rmw_cases, test_cases,
  stack_cases, jump_cases, branch_cases, interrupt_cases, regular_cases, ora_cases, and_cases,
  eor_cases, adc_cases, sta_cases, lda_cases, cmp_cases, sbc_cases,
}
use chippy.W65816.Kernels.{Rmw}
use chippy.W65816.Modes.{Ea}
use chippy.W65816.Counted.Rules.{CountsOn}
use chippy.W65816.Counted.Modes.{mode_pays}
use chippy.W65816.Counted.Kernels.{CasePays, KernelPays, via-CasePays, kernel_pays}
use chippy.W65816.Counted.Calm.{calm_rules}
use chippy.W65816.Counted.Rules.{Calm-Steady}
use chippy.W65816.Counted.Sums.{CalmRmw, sum_rules, index_rules}
use chippy.W65816.Counted.Inline.{inline_pays}
use chippy.W65816.Counted.Control.{control_pays}

module _ {W : Type 0} {count : Env W → ℕ} (bus : Bus24 W) (counted : CountsOn bus count) where
  abbrev pub AllPay : List (Case W) → Type 0
  AllPay [] = Unit
  AllPay ((op, body) ∷ rest) = CasePays bus counted body × AllPay rest

  AllPay-append : (l k : List (Case W)) → AllPay l → AllPay k → AllPay (l ++ k)
  AllPay-append [] k hl hk = hk
  AllPay-append ((op, body) ∷ l) k hl hk = (hl.0, AllPay-append l k hl.1 hk)

  alu_cases-AllPay :
      (base : ℕ) (kernel : Ea × ℕ → M W ℕ)
      → KernelPays bus counted kernel
      → AllPay (alu_cases bus base kernel)
  unfolding alu_cases
  alu_cases-AllPay base kernel h = search (mode_pays, via-CasePays) depth 20

  flag_cases-AllPay : AllPay (flag_cases bus)
  unfolding flag_cases
  flag_cases-AllPay = search (inline_pays, calm_rules, sum_rules, index_rules, Calm-Steady) depth 20

  count_cases-AllPay : AllPay (count_cases bus)
  unfolding count_cases
  count_cases-AllPay =
      search (inline_pays, calm_rules, sum_rules, index_rules, Calm-Steady) depth 20

  transfer_cases-AllPay : AllPay (transfer_cases bus)
  unfolding transfer_cases
  transfer_cases-AllPay =
      search (inline_pays, calm_rules, sum_rules, index_rules, Calm-Steady) depth 20

  immediate_cases-AllPay : AllPay (immediate_cases bus)
  unfolding immediate_cases
  immediate_cases-AllPay =
      search (inline_pays, calm_rules, sum_rules, index_rules, Calm-Steady) depth 20

  mode_cases-AllPay : AllPay (mode_cases bus)
  unfolding mode_cases
  mode_cases-AllPay = search (inline_pays, calm_rules, sum_rules, index_rules, Calm-Steady) depth 20

  acc_cases-AllPay : AllPay (acc_cases bus)
  unfolding acc_cases
  acc_cases-AllPay = search (inline_pays, calm_rules, sum_rules, index_rules, Calm-Steady) depth 20

  stack_cases-AllPay : AllPay (stack_cases bus)
  unfolding stack_cases
  stack_cases-AllPay =
      search (inline_pays, calm_rules, sum_rules, index_rules, Calm-Steady) depth 20

  jump_cases-AllPay : AllPay (jump_cases bus)
  unfolding jump_cases
  jump_cases-AllPay = search (control_pays) depth 20

  branch_cases-AllPay : AllPay (branch_cases bus)
  unfolding branch_cases
  branch_cases-AllPay = search (control_pays) depth 20

  interrupt_cases-AllPay : AllPay (interrupt_cases bus)
  unfolding interrupt_cases
  interrupt_cases-AllPay = search (control_pays) depth 20

  index_cases-AllPay : AllPay (index_cases bus)
  unfolding index_cases
  index_cases-AllPay =
      search (mode_pays, via-CasePays, kernel_pays, calm_rules, sum_rules, index_rules, Calm-Steady)
        depth 20

  store_zero_cases-AllPay : AllPay (store_zero_cases bus)
  unfolding store_zero_cases
  store_zero_cases-AllPay =
      search (mode_pays, via-CasePays, kernel_pays, calm_rules, sum_rules, index_rules, Calm-Steady)
        depth 20

  compare_cases-AllPay : AllPay (compare_cases bus)
  unfolding compare_cases
  compare_cases-AllPay =
      search (mode_pays, via-CasePays, kernel_pays, calm_rules, sum_rules, index_rules, Calm-Steady)
        depth 20

  test_cases-AllPay : AllPay (test_cases bus)
  unfolding test_cases
  test_cases-AllPay =
      search (mode_pays, via-CasePays, kernel_pays, calm_rules, sum_rules, index_rules, Calm-Steady)
        depth 20

  memory_cases-AllPay :
      (dp abs dp_x abs_x : ℕ) (fn : Rmw)
      → CalmRmw fn
      → AllPay (memory_cases bus dp abs dp_x abs_x fn)
  unfolding memory_cases
  memory_cases-AllPay dp abs dp_x abs_x fn h =
      search (mode_pays, via-CasePays, kernel_pays) depth 20

  rmw_cases-AllPay : AllPay (rmw_cases bus)
  unfolding rmw_cases
  rmw_cases-AllPay =
      search (AllPay-append, acc_cases-AllPay, memory_cases-AllPay, test_cases-AllPay, sum_rules)
        depth 40

  pub regular_cases-AllPay : AllPay (regular_cases bus)
  unfolding regular_cases ora_cases and_cases eor_cases adc_cases sta_cases lda_cases cmp_cases
      sbc_cases
  regular_cases-AllPay =
      search
        (
          AllPay-append, flag_cases-AllPay, count_cases-AllPay, transfer_cases-AllPay,
          immediate_cases-AllPay, mode_cases-AllPay, alu_cases-AllPay, index_cases-AllPay,
          store_zero_cases-AllPay, compare_cases-AllPay, rmw_cases-AllPay, stack_cases-AllPay,
          jump_cases-AllPay, branch_cases-AllPay, interrupt_cases-AllPay, kernel_pays, calm_rules,
          sum_rules, index_rules, Calm-Steady,
        )
        depth 60
