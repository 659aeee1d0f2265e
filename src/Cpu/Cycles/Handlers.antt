-- ===== src/Cpu/Cycles/Handlers.antt =====
-- The ticks of the parts that handlers are built from.
use chippy.Prelude.{ℕ, ◌+◌, Bool, true, arith, if◌then◌else◌}
use chippy.Cpu.State.{Cpu, Bus, Regs, ◌>>=◌, extra_cycle}
use chippy.Cpu.Addressing.{AddrMode, acc}
use chippy.Cpu.Ops
use chippy.Cpu.Ops.{is_acc, is_operandless}
use chippy.Cpu.Illegal
use chippy.Cpu.Cmos
use chippy.Cpu.Cycles.Counts.{
  Counts-bind0, Counts-bind1, Counts-bind2, Counts-regs, Counts-on_regs, Counts, Counts-either,
  Counts-pure, counts_rules,
}
use chippy.Cpu.Cycles.Accesses.{access_counts, Counts-idle, Counts-push, Counts-push16}
use chippy.Cpu.Cycles.Modes.{Counts-bump_pc, Counts-operand_byte}

module _ {W : Type 0} (bus : Bus W) where
  -- An extra cycle with the bus cycle that stands for it.
  pub Counts-branch_cycle : (addr : ℕ) → Counts true 0 (Ops.branch_cycle bus addr)
  unfolding Ops.branch_cycle extra_cycle ◌>>=◌
  Counts-branch_cycle addr = record {
    at = λ c h.
        let c' : Cpu W = record c {
          clock = record (c.clock) { extra_cycles = c.clock.extra_cycles + 1 };
        } in
        let t =
          (Counts-idle {w = true} bus addr).at c'
            (record { per_cycle = h.per_cycle; is_nes = h.is_nes }) in
        record { per_cycle = t.per_cycle; is_nes = t.is_nes; ticks = omega (arith, t.ticks) };
  }

  pub Counts-branch_delays_irq : Counts {W = W} true 0 (Ops.branch_delays_irq bus)
  unfolding Ops.branch_delays_irq
  Counts-branch_delays_irq = search counts_rules depth 20

  pub Counts-branch : (addr : ℕ) (take : Bool) → Counts true 0 (Ops.branch bus addr take)
  unfolding Ops.branch
  Counts-branch addr take =
      search (counts_rules, Counts-branch_cycle, Counts-branch_delays_irq) depth 20

  pub Counts-op_branch :
      (f : ℕ) (on : Bool) (addr : ℕ) → Counts true 0 (Ops.op_branch bus f on addr)
  unfolding Ops.op_branch
  Counts-op_branch f on addr = search (counts_rules, Counts-branch) depth 20

pub ruleset op_rules = (access_counts, Counts-bump_pc)

module _ {W : Type 0} (bus : Bus W) where
  pub Counts-rmw_dummy :
      (addr : ℕ) (m : AddrMode) (old : ℕ)
      → Counts true (if is_acc m then 0 else 1) (Ops.rmw_dummy bus addr m old)
  unfolding Ops.rmw_dummy
  Counts-rmw_dummy addr m old =
      Counts-either (is_acc m) 0 1 _ _ (Counts-pure tt) (search op_rules depth 20)

  pub Counts-load :
      (addr : ℕ) (m : AddrMode) → Counts true (if is_acc m then 0 else 1) (Ops.load bus addr m)
  unfolding Ops.load
  Counts-load addr m =
      Counts-either (is_acc m) 0 1 _ _ (search op_rules depth 20) (search op_rules depth 20)

  pub Counts-store :
      (addr : ℕ) (m : AddrMode) (v : ℕ)
      → Counts true (if is_acc m then 0 else 1) (Ops.store bus addr m v)
  unfolding Ops.store
  Counts-store addr m v =
      Counts-either (is_acc m) 0 1 _ _ (search op_rules depth 20) (search op_rules depth 20)

  pub Counts-pull_idles : Counts true 2 (Ops.pull_idles bus)
  unfolding Ops.pull_idles
  Counts-pull_idles = search op_rules depth 20

  pub Counts-hijack : (vec : ℕ) → Counts true 0 (Ops.hijack bus vec)
  unfolding Ops.hijack
  Counts-hijack vec = search op_rules depth 20

  pub Counts-mask_interrupts : Counts true 0 (Ops.mask_interrupts bus)
  unfolding Ops.mask_interrupts
  Counts-mask_interrupts = search op_rules depth 20

  pub Counts-jump_vector : (vec : ℕ) → Counts true 2 (Ops.jump_vector bus vec)
  unfolding Ops.jump_vector
  Counts-jump_vector vec = search op_rules depth 20

  pub Counts-op_read : (f : ℕ → Regs → Regs) (addr : ℕ) → Counts true 1 (Ops.op_read bus f addr)
  unfolding Ops.op_read
  Counts-op_read f addr = search op_rules depth 20

  pub Counts-op_store : (f : Regs → ℕ) (addr : ℕ) → Counts true 1 (Ops.op_store bus f addr)
  unfolding Ops.op_store
  Counts-op_store f addr = search op_rules depth 20

  pub Counts-op_adc : (addr : ℕ) → Counts true 1 (Ops.op_adc bus addr)
  unfolding Ops.op_adc
  Counts-op_adc addr = search op_rules depth 20

  pub Counts-op_sbc : (addr : ℕ) → Counts true 1 (Ops.op_sbc bus addr)
  unfolding Ops.op_sbc
  Counts-op_sbc addr = search op_rules depth 20

  pub Counts-op_step_memory :
      (by addr : ℕ) (m : AddrMode)
      → Counts true (if is_acc m then 2 else 3) (Ops.op_step_memory bus by addr m)
  unfolding Ops.op_step_memory
  Counts-op_step_memory by addr acc =
      let dummy : (old : ℕ) → Counts true 0 (Ops.rmw_dummy bus addr acc old) =
        Counts-rmw_dummy addr acc in
      search (op_rules, dummy) depth 20
  Counts-op_step_memory by addr m =
      let dummy : (old : ℕ) → Counts true 1 (Ops.rmw_dummy bus addr m old) =
        Counts-rmw_dummy addr m in
      search (op_rules, dummy) depth 20

  pub Counts-op_shift :
      (out_bit : ℕ) (f : Regs → ℕ → ℕ) (addr : ℕ) (m : AddrMode)
      → Counts true (if is_acc m then 0 else 3) (Ops.op_shift bus out_bit f addr m)
  unfolding Ops.op_shift
  Counts-op_shift out_bit f addr acc = Counts-bind0 0 _ _ (Counts-load addr acc) λ v.
      Counts-bind0 0 _ _ (Counts-rmw_dummy addr acc v) λ _. Counts-bind0 0 _ _ Counts-regs λ r.
        Counts-bind0 0 _ _ (Counts-on_regs _)
          λ _. Counts-bind0 0 _ _ (Counts-store addr acc (f r v)) λ _. Counts-on_regs _
  Counts-op_shift out_bit f addr m = Counts-bind1 2 _ _ (Counts-load addr m) λ v.
      Counts-bind1 1 _ _ (Counts-rmw_dummy addr m v) λ _. Counts-bind0 1 _ _ Counts-regs λ r.
        Counts-bind0 1 _ _ (Counts-on_regs _)
          λ _. Counts-bind1 0 _ _ (Counts-store addr m (f r v)) λ _. Counts-on_regs _

  pub Counts-op_test_bits :
      (f : ℕ → ℕ → ℕ) (addr : ℕ) (m : AddrMode)
      → Counts true (if is_acc m then 2 else 3) (Cmos.op_test_bits bus f addr m)
  unfolding Cmos.op_test_bits
  Counts-op_test_bits f addr acc =
      let dummy : (old : ℕ) → Counts true 0 (Ops.rmw_dummy bus addr acc old) =
        Counts-rmw_dummy addr acc in
      search (op_rules, dummy) depth 20
  Counts-op_test_bits f addr m =
      let dummy : (old : ℕ) → Counts true 1 (Ops.rmw_dummy bus addr m old) =
        Counts-rmw_dummy addr m in
      search (op_rules, dummy) depth 20

  pub Counts-op_memory_bit :
      (bit : ℕ) (on : Bool) (addr : ℕ) (m : AddrMode)
      → Counts true (if is_acc m then 2 else 3) (Cmos.op_memory_bit bus bit on addr m)
  unfolding Cmos.op_memory_bit
  Counts-op_memory_bit bit on addr acc =
      let dummy : (old : ℕ) → Counts true 0 (Ops.rmw_dummy bus addr acc old) =
        Counts-rmw_dummy addr acc in
      search (op_rules, dummy) depth 20
  Counts-op_memory_bit bit on addr m =
      let dummy : (old : ℕ) → Counts true 1 (Ops.rmw_dummy bus addr m old) =
        Counts-rmw_dummy addr m in
      search (op_rules, dummy) depth 20

  pub Counts-op_shift_combine :
      (out_bit : ℕ) (f : Regs → ℕ → ℕ) (g : ℕ → ℕ → ℕ) (addr : ℕ)
      → Counts true 3 (Illegal.op_shift_combine bus out_bit f g addr)
  unfolding Illegal.op_shift_combine
  Counts-op_shift_combine out_bit f g addr = search op_rules depth 20

  pub Counts-op_nop :
      (addr : ℕ) (m : AddrMode)
      → Counts true (if is_operandless m then 0 else 1) (Ops.op_nop bus addr m)
  unfolding Ops.op_nop
  Counts-op_nop addr m =
      Counts-either (is_operandless m) 0 1 _ _ (Counts-pure tt) (search op_rules depth 20)

  pub Counts-op_push_reg : (f : Regs → ℕ) → Counts true 2 (Cmos.op_push_reg bus f)
  unfolding Cmos.op_push_reg
  Counts-op_push_reg f = search op_rules depth 20

  pub Counts-op_pull_reg : (f : ℕ → Regs → Regs) → Counts true 3 (Cmos.op_pull_reg bus f)
  unfolding Cmos.op_pull_reg
  Counts-op_pull_reg f = search (op_rules, Counts-pull_idles) depth 20

  pub Counts-branch_bit_test :
      (bit : ℕ) (on : Bool) → Counts true 5 (Cmos.branch_bit_test bus bit on)
  unfolding Cmos.branch_bit_test
  Counts-branch_bit_test bit on = search (op_rules, Counts-operand_byte) depth 30

module _ {W : Type 0} (bus : Bus W) where
  pub Counts-op_brk : Counts true 6 (Ops.op_brk bus)
  unfolding Ops.op_brk
  Counts-op_brk = Counts-bind0 6 _ _ Counts-regs λ r. Counts-bind1 5 _ _ (Counts-idle bus r.pc) λ _.
      Counts-bind0 5 _ _ (Counts-bump_pc 1) λ _. Counts-bind0 5 _ _ Counts-regs λ r.
        Counts-bind2 3 _ _ (Counts-push16 bus r.pc) λ _.
          Counts-bind0 3 _ _ (Counts-hijack bus Ops.vec_irq) λ vec.
            Counts-bind0 3 _ _ Counts-regs λ r.
              Counts-bind1 2 _ _ (Counts-push bus (Ops.pushed_status r.p)) λ _.
                Counts-bind0 2 _ _ (Counts-mask_interrupts bus)
                  λ _. Counts-bind2 0 _ _ (Counts-jump_vector bus vec) λ _. search counts_rules

pub ruleset handler_rules = (
  op_rules, Counts-pull_idles, Counts-hijack, Counts-mask_interrupts, Counts-jump_vector,
  Counts-op_read, Counts-op_store, Counts-op_branch, Counts-branch, Counts-op_adc, Counts-op_sbc,
  Counts-op_step_memory, Counts-op_shift, Counts-op_test_bits, Counts-op_memory_bit,
  Counts-op_shift_combine, Counts-op_nop, Counts-op_push_reg, Counts-op_pull_reg,
  Counts-branch_bit_test, Counts-op_brk,
)
