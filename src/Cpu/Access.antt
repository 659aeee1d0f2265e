-- ===== src/Cpu/Access.antt =====
-- The bus cycles of cpu/cpu.go (busRead, write, idle, sampleNMI, the stack) and the DMA window of
-- cpu/dma.go. In per-cycle mode (`nes_cycle`) each of them ticks the host once.
pub mod Dma
use chippy.Prelude.{
  ℕ, ◌+◌, ◌-◌, ◌^◌, Bool, true, false, not, ◌&&◌, Option, none, some, u8, u16, u64, hi_byte, word,
  bit_or, if◌then◌else◌,
}
use chippy.Cpu.State.{
  M, Cpu, Bus, Env, Regs, AccessKind, access_read, access_write, access_exec, Variant, nmos,
  cmos65c02, nes,
}
use chippy.Cpu.State.{◌>>=◌, ◌>>◌, pure, gets, regs, on_regs, add_master_clock, instr_cycle}
use Dma.{hook, run_ppu, tick, sample_nmi, raw_read, raw_write, process_pending_dma}

module _ {W : Type 0} (bus : Bus W) where
  -- `if c.needHalt { c.ProcessPendingDma(addr) }`
  unfoldable pub drain_dma : ℕ → M W (Unit {0})
  drain_dma addr = do
    halt ← gets (λ c. c.env.lines.need_halt)
    if halt then process_pending_dma bus addr else pure tt

  -- busRead under `nesCycle`; its read is discarded by `idle`.
  unfoldable pub nes_read : ℕ → AccessKind → M W ℕ
  nes_read addr kind = do
    drain_dma addr
    instr_cycle
    add_master_clock 5
    run_ppu bus
    tick bus 1
    v ← raw_read bus addr
    hook bus addr kind
    add_master_clock 7
    run_ppu bus
    sample_nmi
    pure v

  unfoldable pub nes_write : ℕ → ℕ → M W (Unit {0})
  nes_write addr v = do
    instr_cycle
    add_master_clock 7
    run_ppu bus
    tick bus 1
    raw_write bus addr v
    hook bus addr access_write
    add_master_clock 5
    run_ppu bus
    sample_nmi

  unfoldable pub bus_read : ℕ → AccessKind → M W ℕ
  unfolding nes_read
  bus_read addr kind = do
    per_cycle ← gets (λ c. c.nes_cycle)
    if per_cycle then nes_read addr kind else (do v ← raw_read bus addr; hook bus addr kind; pure v)

  unfoldable pub read : ℕ → M W ℕ
  unfolding bus_read
  read addr = bus_read addr access_read

  unfoldable pub fetch : ℕ → M W ℕ
  unfolding bus_read
  fetch addr = bus_read addr access_exec

  unfoldable pub write : ℕ → ℕ → M W (Unit {0})
  unfolding nes_write
  write addr v = do
    per_cycle ← gets (λ c. c.nes_cycle)
    if per_cycle then nes_write addr v else (do raw_write bus addr v; hook bus addr access_write)

  unfoldable pub idle : ℕ → M W (Unit {0})
  unfolding nes_read
  idle addr = do
    per_cycle ← gets (λ c. c.nes_cycle)
    if per_cycle then (do nes_read addr access_read; pure tt) else pure tt

  unfoldable pub push : ℕ → M W (Unit {0})
  push v = do
    r ← regs
    write (bit_or 0x100 r.sp) v
    on_regs (λ r. record r { sp = u8 (r.sp + 256 - 1) })

  unfoldable pub pop : M W ℕ
  pop = do on_regs (λ r. record r { sp = u8 (r.sp + 1) }); r ← regs; read (bit_or 0x100 r.sp)

  unfoldable pub push16 : ℕ → M W (Unit {0})
  push16 v = do push (hi_byte v); push (u8 v)

  unfoldable pub pop16 : M W ℕ
  pop16 = do lo ← pop; hi ← pop; pure (word lo hi)
