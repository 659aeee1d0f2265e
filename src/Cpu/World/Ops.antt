-- ===== src/Cpu/World/Ops.antt =====
-- Addressing and every instruction handler keep what the host keeps.
use chippy.Prelude.{ℕ, Bool}
use chippy.Cpu.State.{Bus, Regs}
use chippy.Cpu.Addressing.{
  AddrMode, imp, bump_pc, operand_byte, operand_word, read_word, zero_page_indexed,
  absolute_indexed, indirect, resolve,
}
use chippy.Cpu.Ops
use chippy.Cpu.Illegal
use chippy.Cpu.Cmos
use chippy.Cpu.Instr.{Op, op_lda, exec}
use chippy.Cpu.World.Keeps.{Preserves, Keeps, keeps_rules}
use chippy.Cpu.World.Accesses.{
  Keeps-read, Keeps-write, Keeps-idle, Keeps-push, Keeps-pop, Keeps-push16, Keeps-pop16,
}

ruleset bus_rules = (
  keeps_rules, Keeps-read, Keeps-write, Keeps-idle, Keeps-push, Keeps-pop, Keeps-push16,
  Keeps-pop16,
)

module _ {W : Type 0} {P : W → Type 0} (bus : Bus W) (host : Preserves P bus) where
  Keeps-bump_pc : (n : ℕ) → Keeps P (bump_pc n)
  unfolding bump_pc
  Keeps-bump_pc n = search keeps_rules

  pub Keeps-operand_byte : Keeps P (operand_byte bus)
  unfolding operand_byte
  Keeps-operand_byte = search (bus_rules, Keeps-bump_pc) depth 30

  pub Keeps-operand_word : Keeps P (operand_word bus)
  unfolding operand_word
  Keeps-operand_word = search (bus_rules, Keeps-bump_pc) depth 30

  pub Keeps-read_word : (lo : ℕ) (hi : ℕ) → Keeps P (read_word bus lo hi)
  unfolding read_word
  Keeps-read_word lo hi = search bus_rules depth 30

  pub Keeps-zero_page_indexed : (f : Regs → ℕ) → Keeps P (zero_page_indexed bus f)
  unfolding zero_page_indexed
  Keeps-zero_page_indexed f = search (bus_rules, Keeps-operand_byte) depth 30

  pub Keeps-absolute_indexed : (f : Regs → ℕ) → Keeps P (absolute_indexed bus f)
  unfolding absolute_indexed
  Keeps-absolute_indexed f = search (bus_rules, Keeps-operand_word) depth 30

  pub Keeps-indirect : (ptr : ℕ) → Keeps P (indirect bus ptr)
  unfolding indirect
  Keeps-indirect ptr = search (bus_rules, Keeps-read_word) depth 30

  pub Keeps-resolve : (m : AddrMode) → Keeps P (resolve bus m)
  unfolding resolve
  Keeps-resolve imp = search keeps_rules
  Keeps-resolve _ =
      search
        (
          bus_rules, Keeps-bump_pc, Keeps-operand_byte, Keeps-operand_word, Keeps-read_word,
          Keeps-zero_page_indexed, Keeps-absolute_indexed, Keeps-indirect,
        )
        depth 30

  pub Keeps-load : (addr : ℕ) (m : AddrMode) → Keeps P (Ops.load bus addr m)
  unfolding Ops.load
  Keeps-load addr m = search bus_rules depth 30

  pub Keeps-store : (addr : ℕ) (m : AddrMode) (v : ℕ) → Keeps P (Ops.store bus addr m v)
  unfolding Ops.store
  Keeps-store addr m v = search bus_rules depth 30

  pub Keeps-rmw_dummy : (addr : ℕ) (m : AddrMode) (old : ℕ) → Keeps P (Ops.rmw_dummy bus addr m old)
  unfolding Ops.rmw_dummy
  Keeps-rmw_dummy addr m old = search bus_rules depth 30

  pub Keeps-op_read : (f : ℕ → Regs → Regs) (addr : ℕ) → Keeps P (Ops.op_read bus f addr)
  unfolding Ops.op_read
  Keeps-op_read f addr = search bus_rules depth 30

  pub Keeps-op_store : (f : Regs → ℕ) (addr : ℕ) → Keeps P (Ops.op_store bus f addr)
  unfolding Ops.op_store
  Keeps-op_store f addr = search bus_rules depth 30

  pub Keeps-pull_idles : Keeps P (Ops.pull_idles bus)
  unfolding Ops.pull_idles
  Keeps-pull_idles = search bus_rules depth 30

  pub Keeps-op_adc : (addr : ℕ) → Keeps P (Ops.op_adc bus addr)
  unfolding Ops.op_adc
  Keeps-op_adc addr = search bus_rules depth 30

  pub Keeps-op_sbc : (addr : ℕ) → Keeps P (Ops.op_sbc bus addr)
  unfolding Ops.op_sbc
  Keeps-op_sbc addr = search bus_rules depth 30

  pub Keeps-op_step_memory :
      (by : ℕ) (addr : ℕ) (m : AddrMode) → Keeps P (Ops.op_step_memory bus by addr m)
  unfolding Ops.op_step_memory
  Keeps-op_step_memory by addr m = search (bus_rules, Keeps-rmw_dummy) depth 30

  pub Keeps-op_shift :
      (bit : ℕ) (f : Regs → ℕ → ℕ) (addr : ℕ) (m : AddrMode)
      → Keeps P (Ops.op_shift bus bit f addr m)
  unfolding Ops.op_shift
  Keeps-op_shift bit f addr m =
      search (bus_rules, Keeps-rmw_dummy, Keeps-load, Keeps-store) depth 30

  pub Keeps-branch_delays_irq : Keeps P (Ops.branch_delays_irq bus)
  unfolding Ops.branch_delays_irq
  Keeps-branch_delays_irq = search bus_rules depth 30

  pub Keeps-branch_cycle : (addr : ℕ) → Keeps P (Ops.branch_cycle bus addr)
  unfolding Ops.branch_cycle
  Keeps-branch_cycle addr = search bus_rules depth 30

  pub Keeps-branch : (addr : ℕ) (take : Bool) → Keeps P (Ops.branch bus addr take)
  unfolding Ops.branch
  Keeps-branch addr take = search (bus_rules, Keeps-branch_delays_irq, Keeps-branch_cycle) depth 30

  pub Keeps-op_branch : (f : ℕ) (on : Bool) (addr : ℕ) → Keeps P (Ops.op_branch bus f on addr)
  unfolding Ops.op_branch
  Keeps-op_branch f on addr = search (bus_rules, Keeps-branch) depth 30

  pub Keeps-hijack : (vec : ℕ) → Keeps P (Ops.hijack bus vec)
  unfolding Ops.hijack
  Keeps-hijack vec = search bus_rules depth 30

  pub Keeps-mask_interrupts : Keeps P (Ops.mask_interrupts bus)
  unfolding Ops.mask_interrupts
  Keeps-mask_interrupts = search bus_rules depth 30

  pub Keeps-jump_vector : (vec : ℕ) → Keeps P (Ops.jump_vector bus vec)
  unfolding Ops.jump_vector
  Keeps-jump_vector vec = search bus_rules depth 30

  pub Keeps-op_brk : Keeps P (Ops.op_brk bus)
  unfolding Ops.op_brk
  Keeps-op_brk =
      search (bus_rules, Keeps-hijack, Keeps-mask_interrupts, Keeps-jump_vector, Keeps-bump_pc)
        depth 30

  pub Keeps-op_shift_combine :
      (bit : ℕ) (f : Regs → ℕ → ℕ) (g : ℕ → ℕ → ℕ) (addr : ℕ)
      → Keeps P (Illegal.op_shift_combine bus bit f g addr)
  unfolding Illegal.op_shift_combine
  Keeps-op_shift_combine bit f g addr = search bus_rules depth 30

  pub Keeps-op_pull_reg : (f : ℕ → Regs → Regs) → Keeps P (Cmos.op_pull_reg bus f)
  unfolding Cmos.op_pull_reg
  Keeps-op_pull_reg f = search (bus_rules, Keeps-pull_idles) depth 30

  pub Keeps-op_test_bits :
      (f : ℕ → ℕ → ℕ) (addr : ℕ) (m : AddrMode) → Keeps P (Cmos.op_test_bits bus f addr m)
  unfolding Cmos.op_test_bits
  Keeps-op_test_bits f addr m = search (bus_rules, Keeps-rmw_dummy) depth 30

  pub Keeps-op_memory_bit :
      (bit : ℕ) (on : Bool) (addr : ℕ) (m : AddrMode)
      → Keeps P (Cmos.op_memory_bit bus bit on addr m)
  unfolding Cmos.op_memory_bit
  Keeps-op_memory_bit bit on addr m = search (bus_rules, Keeps-rmw_dummy) depth 30

  pub Keeps-branch_bit_test : (bit : ℕ) (on : Bool) → Keeps P (Cmos.branch_bit_test bus bit on)
  unfolding Cmos.branch_bit_test
  Keeps-branch_bit_test bit on = search (bus_rules, Keeps-operand_byte) depth 30

  pub Keeps-exec : (op : Op) (addr : ℕ) (m : AddrMode) → Keeps P (exec bus op addr m)
  unfolding exec Ops.op_pha Ops.op_php Ops.op_pla Ops.op_plp Ops.op_jsr Ops.op_rts Ops.op_rti
      Ops.op_nop Ops.op_stp Illegal.op_dcp Illegal.op_isc Illegal.op_rra Illegal.op_tas
      Cmos.op_push_reg Cmos.op_nop_abs
  Keeps-exec op_lda addr m = search (keeps_rules, Keeps-op_read) depth 9
  Keeps-exec _ addr m =
      search
        (
          bus_rules, Keeps-pull_idles, Keeps-op_read, Keeps-op_store, Keeps-op_adc, Keeps-op_sbc,
          Keeps-op_step_memory, Keeps-op_shift, Keeps-branch, Keeps-op_branch, Keeps-op_brk,
          Keeps-op_shift_combine, Keeps-op_pull_reg, Keeps-op_test_bits, Keeps-op_memory_bit,
          Keeps-branch_bit_test,
        )
        depth 30
