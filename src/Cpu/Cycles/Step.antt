-- ===== src/Cpu/Cycles/Step.antt =====
-- Step in per-cycle mode never meets its own panic: the ticks are the cycles.
use chippy.Prelude.{
  ℕ, ◌<◌, ◌≡◌, ◌+◌, refl, ap, ◌∙◌, sym, Bool, true, false, not, ◌||◌, Bool-cases, inl, inr,
  if◌then◌else◌, arith,
}
use mathlib.Core.Path.{subst}
use chippy.Cpu.State.{
  M, Cpu, Bus, Variant, nes, ◌>>=◌, pure, gets, regs, variant, add_cycles, set_halted,
}
use chippy.Cpu.Access.{fetch, bus_read, nes_read}
use chippy.Cpu.Access.Dma.{raw_read, ask_byte}
use chippy.Cpu.Addressing.{bump_pc, resolve}
use chippy.Cpu.Instr.{Instr, exec}
use chippy.Cpu.Table.{table, opcodes}
use chippy.Cpu.Step.{
  Outcome, ran, set_instr_zero, set_extra_zero, before_exec, retire, interrupt_status, total_cycles,
  run_instruction, counting_cycles, step_nmi, step_irq, dispatch, step, wake_on_masked_irq,
  service_vector, service_nmi, service_irq, clear_nmi_poll, nmi_take, irq_take,
}
use chippy.Cpu.Cycles.Counts.{
  IsPerCycle, Took, Counts, Counts-per_cycle, Counts-variant, Counts-bind0, Counts-bind1,
  Counts-bind2, Counts-regs, Counts-if, Counts-pure, Counts-gets, counts_rules,
}
use chippy.Cpu.Cycles.Accesses.{Counts-fetch, Counts-tick, Counts-idle, Counts-push, Counts-push16}
use chippy.Cpu.Cycles.Modes.{dummy_ticks, Counts-bump_pc, Counts-resolve, Counts-addr_dummies}
use chippy.Cpu.Cycles.Ops.{Counts-exec}
use chippy.Cpu.Cycles.Handlers.{Counts-hijack, Counts-mask_interrupts, Counts-jump_vector}
use chippy.Cpu.Cycles.Table.{instr_ticks, listed_cycles, instr_ticks-eq-listed_cycles}

-- A count of cycles came back, and the per-cycle mode is still on.
abbrev pub Ran : {W : Type 0} → Outcome × Cpu W → Type 0
Ran r = IsPerCycle r.1 × ((n : ℕ) × (r.0 ≡ ran n))

module _ {W : Type 0} where
  IsPerCycle-Took : {w : Bool} {n : ℕ} {c d : Cpu W} → Took w n c d → IsPerCycle d
  IsPerCycle-Took t = record { per_cycle = t.per_cycle; is_nes = t.is_nes }

  Ran-if :
      (b : Bool) (m k : M W Outcome) (c : Cpu W)
      → Ran (m c)
      → Ran (k c)
      → Ran ((if b then m else k) c)
  Ran-if true m k c h j = h
  Ran-if false m k c h j = j

module _ {W : Type 0} (bus : Bus W) where
  Counts-service_vector : (vec : ℕ) → Counts true 7 (service_vector bus vec)
  unfolding service_vector clear_nmi_poll
  Counts-service_vector vec = Counts-bind0 7 _ _ Counts-regs λ r.
      Counts-bind1 6 _ _ (Counts-idle bus r.pc) λ _. Counts-bind0 6 _ _ Counts-regs λ r.
        Counts-bind1 5 _ _ (Counts-idle bus r.pc) λ _. Counts-bind0 5 _ _ Counts-regs λ r.
          Counts-bind2 3 _ _ (Counts-push16 bus r.pc) λ _.
            Counts-bind0 3 _ _ (Counts-if 0 _ _ _ (Counts-hijack bus vec) (Counts-pure vec)) λ vec'.
              Counts-bind0 3 _ _ Counts-regs λ r.
                Counts-bind1 2 _ _ (Counts-push bus (interrupt_status r.p)) λ _.
                  Counts-bind0 2 _ _ (Counts-mask_interrupts bus)
                    λ _. Counts-bind2 0 _ _ (Counts-jump_vector bus vec') λ _. search counts_rules

  Counts-service_nmi : Counts true 7 (service_nmi bus)
  unfolding service_nmi
  Counts-service_nmi = search (counts_rules, Counts-service_vector) depth 9

  Counts-service_irq : Counts true 7 (service_irq bus)
  unfolding service_irq
  Counts-service_irq = Counts-service_vector _

  Counts-retire :
      {w : Bool} (i : Instr) (start_pc : ℕ) (crossed : Bool)
      → Counts w 0 (retire bus i start_pc crossed)
  unfolding retire
  Counts-retire i start_pc crossed = search (counts_rules, Counts-tick) depth 30

  Counts-before_exec :
      (i : Instr) (addr : ℕ) (crossed : Bool)
      → Counts true
          (dummy_ticks i.mode i.cycles (not i.page_add || crossed))
          (before_exec bus i addr crossed)
  unfolding before_exec
  Counts-before_exec i addr crossed = Counts-per_cycle _ _ (
      Counts-variant _ _
        (Counts-bind0 _ _ _ (Counts-gets _) (λ _. Counts-addr_dummies bus i addr crossed)))

  fetch-lt : (addr : ℕ) (c : Cpu W) → (fetch bus addr c).0 < 256
  unfolding fetch bus_read nes_read ◌>>=◌ gets pure raw_read ask_byte
  fetch-lt addr c = ground arith

  table-balanced :
      (v : Variant) (code : ℕ) (crossed : Bool)
      → v ≡ nes
      → code < 256
      → instr_ticks (table v code) crossed ≡ listed_cycles (table v code) crossed
  unfolding table
  table-balanced v code crossed is_nes lt =
      subst (λ u. instr_ticks (table u code) crossed ≡ listed_cycles (table u code) crossed)
        (sym is_nes) (instr_ticks-eq-listed_cycles code crossed lt)

  retire-ran :
      (i : Instr) (start_pc : ℕ) (crossed : Bool) (c : Cpu W)
      → c.clock.instr_cycles ≡ total_cycles bus i crossed c
      → (retire bus i start_pc crossed c).0 ≡ ran (total_cycles bus i crossed c)
  unfolding retire ◌>>=◌ gets add_cycles pure total_cycles
  retire-ran i start_pc crossed c e = ground (arith, e)

  -- What Step has fetched when it decodes: the opcode, and the machine with PC behind it.
  unfoldable pub decoding : M W ℕ
  decoding c = let (code, d) = fetch bus c.regs.pc (set_instr_zero c).1 in (code, (bump_pc 1 d).1)

  -- Whether the operand's address crosses a page.
  unfoldable pub crosses : Instr → Cpu W → Bool
  crosses i c = (resolve bus i.mode c).0.1

  nes-table : (v : Variant) (code : ℕ) → v ≡ nes → table v code ≡ opcodes code
  unfolding table
  nes-table v code is_nes = ap (λ u. table u code) is_nes

  -- In per-cycle mode an instruction stays in that mode and does not panic: the cycles that it
  -- returns are its ticks, which are those that the NMOS table lists for the fetched opcode, with
  -- the one for a crossed page where the table adds it, and the extra cycles that its handler
  -- declares. A DMA window that the devices keep open is cut off after 4096 cycles.
  pub run_instruction-ran :
      (c : Cpu W)
      → IsPerCycle c
      → let (code, d) = decoding c in
        let r = run_instruction bus c in
        let k = r.1.clock in
        IsPerCycle r.1
        × (r.0 ≡ ran k.instr_cycles)
        × (k.instr_cycles
            ≡ listed_cycles (opcodes code) (crosses (opcodes code) d) + k.extra_cycles)
  unfolding run_instruction ◌>>=◌ regs variant set_instr_zero set_extra_zero instr_ticks
      listed_cycles total_cycles decoding crosses
  run_instruction-ran c h =
      let c0 = (set_instr_zero c).1 in
      let f = fetch bus c.regs.pc c0 in
      let t0 =
        (Counts-fetch {w = false} bus c.regs.pc).at c0
          (record { per_cycle = h.per_cycle; is_nes = h.is_nes }) in
      let c1 = (bump_pc 1 f.1).1 in
      let t1 =
        (Counts-bump_pc {w = false} 1).at f.1
          (record { per_cycle = t0.per_cycle; is_nes = t0.is_nes }) in
      let i = table c1.variant f.0 in
      let p = resolve bus i.mode c1 in
      let t2 =
        (Counts-resolve {w = false} bus i.mode).at c1
          (record { per_cycle = t1.per_cycle; is_nes = t1.is_nes }) in
      let c2 = (set_extra_zero p.1).1 in
      let b = before_exec bus i p.0.0 p.0.1 c2 in
      let t3 =
        (Counts-before_exec i p.0.0 p.0.1).at c2
          (record { per_cycle = t2.per_cycle; is_nes = t2.is_nes }) in
      let x = exec bus i.op p.0.0 i.mode b.1 in
      let t4 =
        (Counts-exec bus i.op p.0.0 i.mode).at b.1
          (record { per_cycle = t3.per_cycle; is_nes = t3.is_nes }) in
      let even = table-balanced c1.variant f.0 p.0.1 t1.is_nes (fetch-lt c.regs.pc c0) in
      let done : IsPerCycle x.1 = record { per_cycle = t4.per_cycle; is_nes = t4.is_nes } in
      let r = retire bus i c.regs.pc p.0.1 x.1 in
      let still = (Counts-retire {w = false} i c.regs.pc p.0.1).at x.1 done in
      let kept = (Counts-retire {w = true} i c.regs.pc p.0.1).at x.1 done in
      let ticked : x.1.clock.instr_cycles ≡ total_cycles bus i p.0.1 x.1 =
        omega (arith, even, t0.ticks, t1.ticks, t2.ticks, t3.ticks, t4.ticks) in
      let total : r.1.clock.instr_cycles ≡ total_cycles bus i p.0.1 x.1 =
        omega (arith, ticked, still.ticks) in
      let from_table : i ≡ opcodes f.0 = nes-table c1.variant f.0 t1.is_nes in
      (
        IsPerCycle-Took still,
        retire-ran i c.regs.pc p.0.1 x.1 ticked ∙ ap ran (sym total),
        omega (
          arith,
          total,
          still.ticks,
          kept.ticks,
          ap (λ k. listed_cycles k (crosses k c1)) from_table,
        ),
      )

  run_instruction-Ran : (c : Cpu W) → IsPerCycle c → Ran (run_instruction bus c)
  run_instruction-Ran c h = let r = run_instruction-ran c h in (r.0, (_, r.1))

  counting_cycles-Ran :
      (k : ℕ) (m : M W (Unit {0}))
      → Counts true k m
      → (c : Cpu W) → IsPerCycle c
      → Ran (counting_cycles bus m c)
  unfolding counting_cycles ◌>>=◌ gets pure
  counting_cycles-Ran k m count c h = (IsPerCycle-Took (count.at c h), (_, refl))

  step_nmi-Ran : (c : Cpu W) → IsPerCycle c → Ran (step_nmi bus c)
  unfolding step_nmi ◌>>=◌ set_halted
  step_nmi-Ran c h =
      counting_cycles-Ran 7 _ (search (counts_rules, Counts-service_nmi) depth 9) _
        (record { per_cycle = h.per_cycle; is_nes = h.is_nes })

  step_irq-Ran : (c : Cpu W) → IsPerCycle c → Ran (step_irq bus c)
  unfolding step_irq ◌>>=◌ set_halted
  step_irq-Ran c h =
      counting_cycles-Ran 7 _ (search (counts_rules, Counts-service_irq) depth 9) _
        (record { per_cycle = h.per_cycle; is_nes = h.is_nes })

  dispatch-Ran : (c : Cpu W) → IsPerCycle c → Ran (dispatch bus c)
  unfolding dispatch ◌>>=◌ gets pure
  dispatch-Ran c h = Ran-if (nmi_take bus c) _ _ c (step_nmi-Ran c h) (
      Ran-if (irq_take bus c) _ _ c (step_irq-Ran c h)
        (Ran-if c.halted _ _ c (h, (0, refl)) (run_instruction-Ran c h)))

  IsPerCycle-wake : (c : Cpu W) → IsPerCycle c → IsPerCycle (wake_on_masked_irq bus c)
  unfolding wake_on_masked_irq
  IsPerCycle-wake c h = ground arith

  -- In per-cycle mode Step returns a count of cycles and stays in that mode: the panic on ticks
  -- that differ from the accounted cycles is never reached, whatever the opcode, the memory, the
  -- pending interrupts and the devices do, where a DMA window that the devices keep open is cut
  -- off after 4096 cycles.
  pub step-Ran : (c : Cpu W) → IsPerCycle c → Ran (step bus c)
  unfolding step
  step-Ran c h = elim (Bool-cases c.stopped_by_stp) [
    | inl stopped ↦
        subst (λ b. Ran (if b then (ran 0, c) else dispatch bus (wake_on_masked_irq bus c)))
          (sym stopped) (h, (0, refl))
    | inr going ↦
        subst (λ b. Ran (if b then (ran 0, c) else dispatch bus (wake_on_masked_irq bus c)))
          (sym going) (dispatch-Ran _ (IsPerCycle-wake c h))
  ]
