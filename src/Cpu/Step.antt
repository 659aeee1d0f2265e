-- ===== src/Cpu/Step.antt =====
-- Interrupt dispatch of cpu/cpu.go and `Step` of cpu/exec.go.
use chippy.Prelude.{
  ℕ, ◌+◌, ◌-◌, ◌^◌, Bool, true, false, not, ◌&&◌, ◌||◌, u16, u64, and_not8, bit_and, bit_or, ◌==◌,
  if◌then◌else◌,
}
use chippy.Cpu.State.{M, Cpu, Bus, Regs, Variant}
use chippy.Cpu.State.{
  ◌>>=◌, ◌>>◌, pure, gets, regs, variant, on_lines, on_latches, add_cycles, set_halted,
}
use chippy.Cpu.Flags.{flag_i, flag_b, flag_u, has_flag}
use chippy.Cpu.Access.{fetch, idle, push, push16}
use chippy.Cpu.Access.Dma.{tick}
use chippy.Cpu.Addressing.{AddrMode, imp, acc, abx, aby, izy, is_cmos, bump_pc, resolve}
use chippy.Cpu.Ops.{vec_nmi, vec_irq, is_nes, hijack, mask_interrupts, jump_vector}
use chippy.Cpu.Instr.{Instr, exec}
use chippy.Cpu.Table.{table}

-- What Step returns, or its panic when the ticks of the instruction are not its cycles.
pub data Outcome : Type 0 where
  ran : ℕ → Outcome
  cycle_mismatch : ℕ → ℕ → Outcome

-- `(P | FlagU) &^ FlagB`: the status byte that a hardware interrupt pushes.
unfoldable pub interrupt_status : ℕ → ℕ
unfolding and_not8
interrupt_status p = and_not8 (bit_or p flag_u) flag_b

unfoldable pub indexed_dummy_addr : Variant → ℕ → ℕ → ℕ → ℕ
indexed_dummy_addr v pc addr index =
    if is_cmos v
    then u16 (pc + 65536 - 1)
    else (let base = u16 (addr + 65536 - index) in
        bit_or (bit_and base 0xFF00) (bit_and addr 0x00FF))

module _ {W : Type 0} where
  -- `c.nmiDue = false; c.nmiPollPrev = false`
  unfoldable pub clear_nmi_poll : M W (Unit {0})
  clear_nmi_poll = on_latches (λ s. record s { nmi_due = false; nmi_poll_prev = false })

  -- The extra cycles of the instruction.
  unfoldable pub set_extra_zero : M W (Unit {0})
  set_extra_zero c = (tt, record c { clock = record (c.clock) { extra_cycles = 0 } })

  unfoldable pub set_instr_zero : M W (Unit {0})
  set_instr_zero c = (tt, record c { clock = record (c.clock) { instr_cycles = 0 } })

module _ {W : Type 0} (bus : Bus W) where
  unfoldable pub service_vector : ℕ → M W (Unit {0})
  service_vector vec = do
    r ← regs
    idle bus r.pc
    r ← regs
    idle bus r.pc
    r ← regs
    push16 bus r.pc
    vec' ← (if vec == vec_irq then hijack bus vec else pure vec)
    r ← regs
    push bus (interrupt_status r.p)
    mask_interrupts bus
    jump_vector bus vec'
    add_cycles 7
    clear_nmi_poll

  -- `int(c.Cycles - before)` around a service.
  unfoldable pub counting_cycles : M W (Unit {0}) → M W Outcome
  counting_cycles m = do
    before ← gets (λ c. c.clock.cycles)
    m
    after ← gets (λ c. c.clock.cycles)
    pure (ran (u64 (after + 2 ^ 64 - before)))

  unfoldable pub service_nmi : M W (Unit {0})
  service_nmi = do on_lines (λ l. record l { nmi_pending = false }); service_vector vec_nmi

  unfoldable pub service_irq : M W (Unit {0})
  service_irq = service_vector vec_irq

  unfoldable pub dummy_read_indexed : Instr → ℕ → Bool → (Regs → ℕ) → M W (Unit {0})
  dummy_read_indexed i addr crossed index =
      if not i.page_add || crossed
      then (do r ← regs; v ← variant; idle bus (indexed_dummy_addr v r.pc addr (index r)))
      else pure tt

  unfoldable pub operandless_dummy : Instr → M W (Unit {0})
  operandless_dummy i = if i.cycles == 2 then (do r ← regs; idle bus r.pc) else pure tt

  unfoldable pub addr_dummies_at : AddrMode → Instr → ℕ → Bool → M W (Unit {0})
  addr_dummies_at imp i addr crossed = operandless_dummy i
  addr_dummies_at acc i addr crossed = operandless_dummy i
  addr_dummies_at abx i addr crossed = dummy_read_indexed i addr crossed (λ r. r.x)
  addr_dummies_at aby i addr crossed = dummy_read_indexed i addr crossed (λ r. r.y)
  addr_dummies_at izy i addr crossed = dummy_read_indexed i addr crossed (λ r. r.y)
  addr_dummies_at _ i addr crossed = pure tt

  unfoldable pub addr_dummies : Instr → ℕ → Bool → M W (Unit {0})
  addr_dummies i = addr_dummies_at i.mode i

  -- The dummy cycles in per-cycle mode, or the poll of an NES without a ticker.
  unfoldable pub before_exec : Instr → ℕ → Bool → M W (Unit {0})
  before_exec i addr crossed = do
    per_cycle ← gets (λ c. c.nes_cycle)
    v ← variant
    pending ← gets (λ c. c.env.lines.nmi_pending)
    if per_cycle
        then addr_dummies i addr crossed
        else (if is_nes v then on_latches (λ s. record s { nmi_due = pending }) else pure tt)

  -- The base count with the extra cycles and the page penalty.
  unfoldable pub total_cycles : Instr → Bool → Cpu W → ℕ
  total_cycles i crossed c =
      i.cycles + c.clock.extra_cycles + (if i.page_add && crossed then 1 else 0)

  -- The end of Step: the count, the check of the ticks or the batch tick, the self-jump halt.
  unfoldable pub retire : Instr → ℕ → Bool → M W Outcome
  retire i start_pc crossed = do
    n ← gets (total_cycles i crossed)
    add_cycles n
    per_cycle ← gets (λ c. c.nes_cycle)
    ticked ← gets (λ c. c.clock.instr_cycles)
    if per_cycle && not (ticked == n) then pure (cycle_mismatch ticked n) else (do
      if per_cycle then pure tt else tick bus n
      r ← regs
      v ← variant
      if r.pc == start_pc && not (is_nes v) then set_halted true else pure tt
      pure (ran n))

  -- Fetch, resolve, execute.
  unfoldable pub run_instruction : M W Outcome
  run_instruction = do
    set_instr_zero
    r ← regs
    code ← fetch bus r.pc
    bump_pc 1
    v ← variant
    let i = table v code
    (addr, crossed) ← resolve bus i.mode
    set_extra_zero
    before_exec i addr crossed
    exec bus i.op addr i.mode
    retire i r.pc crossed

  -- WAI wakes on a masked IRQ.
  unfoldable pub wake_on_masked_irq : Cpu W → Cpu W
  wake_on_masked_irq c =
      if c.halted && c.env.lines.irq_line && has_flag flag_i c.regs && not c.env.lines.nmi_pending
      then record c { halted = false }
      else c

  unfoldable pub nmi_take : Cpu W → Bool
  nmi_take c = if is_nes c.variant then c.latches.nmi_due else c.env.lines.nmi_pending

  unfoldable pub irq_take : Cpu W → Bool
  irq_take c =
      if is_nes c.variant
      then c.latches.irq_due
      else c.env.lines.irq_line && not (has_flag flag_i c.regs)

  unfoldable pub step_nmi : M W Outcome
  step_nmi = do
    set_halted false
    counting_cycles (on_latches (λ s. record s { nmi_due = false }) >> service_nmi)

  unfoldable pub step_irq : M W Outcome
  step_irq = do
    set_halted false
    counting_cycles (on_latches (λ s. record s { irq_due = false }) >> service_irq)

  -- Step behind the test of the STP latch and the WAI wake.
  unfoldable pub dispatch : M W Outcome
  dispatch = do
    nmi ← gets nmi_take
    irq ← gets irq_take
    halted ← gets (λ c. c.halted)
    if nmi
        then step_nmi
        else (if irq then step_irq else (if halted then pure (ran 0) else run_instruction))

  unfoldable pub step : M W Outcome
  step c = if c.stopped_by_stp then (ran 0, c) else dispatch (wake_on_masked_irq c)
