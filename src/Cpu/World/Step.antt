-- ===== src/Cpu/World/Step.antt =====
-- What the host's calls keep of the devices' state, Step keeps.
use chippy.Prelude.{ℕ, ◌≡◌, Bool, true, false, arith, if◌then◌else◌}
use mathlib.Core.Path.{subst, sym}
use chippy.Cpu.State.{M, Cpu, Bus, Env, Regs, ◌>>=◌, gets, pure}
use chippy.Cpu.Addressing.{AddrMode, imp, bump_pc}
use chippy.Cpu.Instr.{Instr}
use chippy.Cpu.Step.{
  Outcome, ran, set_instr_zero, set_extra_zero, clear_nmi_poll, service_vector, service_nmi,
  service_irq, dummy_read_indexed, operandless_dummy, addr_dummies_at, addr_dummies, before_exec,
  retire, run_instruction, counting_cycles, step_nmi, step_irq, dispatch, wake_on_masked_irq, step,
}
use chippy.Cpu.World.Keeps.{Preserves, Keeps, keeps_rules}
use chippy.Cpu.World.Accesses.{
  Keeps-read, Keeps-write, Keeps-idle, Keeps-push, Keeps-pop, Keeps-push16, Keeps-pop16,
  Keeps-fetch, Keeps-tick,
}
use chippy.Cpu.World.Ops.{
  Keeps-hijack, Keeps-mask_interrupts, Keeps-jump_vector, Keeps-resolve, Keeps-exec,
}

module _ {W : Type 0} {P : W → Type 0} (bus : Bus W) (host : Preserves P bus) where
  Keeps-bump_pc : (n : ℕ) → Keeps P (bump_pc n)
  unfolding bump_pc
  Keeps-bump_pc n = search keeps_rules

  Keeps-set_instr_zero : Keeps P set_instr_zero
  unfolding set_instr_zero
  Keeps-set_instr_zero = record { at = λ c h. h }

  Keeps-set_extra_zero : Keeps P set_extra_zero
  unfolding set_extra_zero
  Keeps-set_extra_zero = record { at = λ c h. h }

  Keeps-clear_nmi_poll : Keeps P clear_nmi_poll
  unfolding clear_nmi_poll
  Keeps-clear_nmi_poll = search keeps_rules

  pub Keeps-service_vector : (vec : ℕ) → Keeps P (service_vector bus vec)
  unfolding service_vector
  Keeps-service_vector vec =
      search
        (
          keeps_rules, Keeps-read, Keeps-write, Keeps-idle, Keeps-push, Keeps-pop, Keeps-push16,
          Keeps-pop16, Keeps-hijack, Keeps-mask_interrupts, Keeps-jump_vector, Keeps-clear_nmi_poll,
        )
        depth 30

  pub Keeps-service_nmi : Keeps P (service_nmi bus)
  unfolding service_nmi
  Keeps-service_nmi = search (keeps_rules, Keeps-service_vector) depth 30

  pub Keeps-service_irq : Keeps P (service_irq bus)
  unfolding service_irq
  Keeps-service_irq = search (keeps_rules, Keeps-service_vector) depth 30

  pub Keeps-dummy_read_indexed :
      (i : Instr) (addr : ℕ) (crossed : Bool) (f : Regs → ℕ)
      → Keeps P (dummy_read_indexed bus i addr crossed f)
  unfolding dummy_read_indexed
  Keeps-dummy_read_indexed i addr crossed f = search (keeps_rules, Keeps-idle) depth 30

  pub Keeps-operandless_dummy : (i : Instr) → Keeps P (operandless_dummy bus i)
  unfolding operandless_dummy
  Keeps-operandless_dummy i = search (keeps_rules, Keeps-idle) depth 30

  Keeps-addr_dummies_at :
      (m : AddrMode) (i : Instr) (addr : ℕ) (crossed : Bool)
      → Keeps P (addr_dummies_at bus m i addr crossed)
  unfolding addr_dummies_at
  Keeps-addr_dummies_at imp i addr crossed = Keeps-operandless_dummy i
  Keeps-addr_dummies_at _ i addr crossed =
      search (keeps_rules, Keeps-operandless_dummy, Keeps-dummy_read_indexed) depth 9

  pub Keeps-addr_dummies :
      (i : Instr) (addr : ℕ) (crossed : Bool) → Keeps P (addr_dummies bus i addr crossed)
  unfolding addr_dummies
  Keeps-addr_dummies i addr crossed = search (keeps_rules, Keeps-addr_dummies_at) depth 30

  pub Keeps-before_exec :
      (i : Instr) (addr : ℕ) (crossed : Bool) → Keeps P (before_exec bus i addr crossed)
  unfolding before_exec
  Keeps-before_exec i addr crossed = search (keeps_rules, Keeps-addr_dummies) depth 30

  pub Keeps-retire :
      (i : Instr) (start_pc : ℕ) (crossed : Bool) → Keeps P (retire bus i start_pc crossed)
  unfolding retire
  Keeps-retire i start_pc crossed = search (keeps_rules, Keeps-tick) depth 30

  pub Keeps-run_instruction : Keeps P (run_instruction bus)
  unfolding run_instruction
  Keeps-run_instruction =
      search
        (
          keeps_rules, Keeps-set_instr_zero, Keeps-set_extra_zero, Keeps-fetch, Keeps-bump_pc,
          Keeps-resolve, Keeps-before_exec, Keeps-exec, Keeps-retire,
        )
        depth 30

  Keeps-counting_cycles : (m : M W (Unit {0})) → Keeps P m → Keeps P (counting_cycles bus m)
  unfolding counting_cycles ◌>>=◌ gets pure
  Keeps-counting_cycles m h = record { at = λ c p. h.at c p }

  pub Keeps-step_nmi : Keeps P (step_nmi bus)
  unfolding step_nmi
  Keeps-step_nmi = search (keeps_rules, Keeps-counting_cycles, Keeps-service_nmi) depth 30

  pub Keeps-step_irq : Keeps P (step_irq bus)
  unfolding step_irq
  Keeps-step_irq = search (keeps_rules, Keeps-counting_cycles, Keeps-service_irq) depth 30

  pub Keeps-dispatch : Keeps P (dispatch bus)
  unfolding dispatch
  Keeps-dispatch =
      search (keeps_rules, Keeps-step_nmi, Keeps-step_irq, Keeps-run_instruction) depth 30

  env-wake : (c : Cpu W) → (wake_on_masked_irq bus c).env ≡ c.env
  unfolding wake_on_masked_irq
  env-wake c = ground arith

  either :
      (b : Bool) (x y : Outcome × Cpu W)
      → P x.1.env.world
      → P y.1.env.world
      → P (if b then x else y).1.env.world
  either true x y h j = h
  either false x y h j = j

  pub step-Keeps : Keeps P (step bus)
  unfolding step
  step-Keeps = record {
    at = λ c h.
        either c.stopped_by_stp (ran 0, c) (dispatch bus (wake_on_masked_irq bus c)) h
          (Keeps-dispatch.at (wake_on_masked_irq bus c)
            (subst (λ (e : Env W). P e.world) (sym (env-wake c)) h));
  }
