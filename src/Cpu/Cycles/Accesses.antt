-- ===== src/Cpu/Cycles/Accesses.antt =====
-- Every bus access takes one tick in per-cycle mode, a DMA window none of the instruction's own.
use chippy.Prelude.{ℕ, zero, suc, refl, Bool}
use chippy.Cpu.State.{Bus, Env, AccessKind, DmaKind}
use chippy.Cpu.Access.Dma.{
  ask_byte, ask_addr, sample_nmi, hook, run_ppu, tick, raw_read, raw_write, dma_read,
  dma_start_cycle, dma_end_cycle, dma_process_cycle, Window, dummy_cycle, dmc_cycle,
  sprite_read_cycle, sprite_write_cycle, dma_round, dma_loop, process_pending_dma,
}
use chippy.Cpu.Access.{
  drain_dma, nes_read, nes_write, read, fetch, write, idle, push, pop, push16, pop16,
}
use chippy.Cpu.Cycles.Counts.{
  Counts, Counts-still, Counts-per_cycle, Counts-pure, Counts-on_env, Counts-bind0, counts_rules,
}

module _ {W : Type 0} {w : Bool} where
  Counts-ask_byte : (f : Env W → ℕ × Env W) → Counts w 0 (ask_byte f)
  unfolding ask_byte
  Counts-ask_byte f = Counts-still (ask_byte f) (λ c. (refl, refl, refl, refl))

  Counts-ask_addr : (f : Env W → ℕ × Env W) → Counts w 0 (ask_addr f)
  unfolding ask_addr
  Counts-ask_addr f = Counts-still (ask_addr f) (λ c. (refl, refl, refl, refl))

  Counts-sample_nmi : Counts {W = W} w 0 sample_nmi
  unfolding sample_nmi
  Counts-sample_nmi = Counts-still sample_nmi (λ c. (refl, refl, refl, refl))

module _ {W : Type 0} {w : Bool} (bus : Bus W) where
  Counts-hook : (addr : ℕ) (kind : AccessKind) → Counts w 0 (hook bus addr kind)
  unfolding hook
  Counts-hook addr kind = search counts_rules

  Counts-run_ppu : Counts w 0 (run_ppu bus)
  unfolding run_ppu
  Counts-run_ppu = search (counts_rules)

  pub Counts-tick : (n : ℕ) → Counts w 0 (tick bus n)
  unfolding tick
  Counts-tick n = search (counts_rules)

ruleset access_rules = (
  counts_rules, Counts-ask_byte, Counts-ask_addr, Counts-sample_nmi, Counts-hook, Counts-run_ppu,
  Counts-tick,
)

module _ {W : Type 0} {w : Bool} (bus : Bus W) where
  Counts-raw_read : (addr : ℕ) → Counts w 0 (raw_read bus addr)
  unfolding raw_read
  Counts-raw_read addr = search access_rules

  Counts-raw_write : (addr v : ℕ) → Counts w 0 (raw_write bus addr v)
  unfolding raw_write
  Counts-raw_write addr v = search access_rules

  Counts-dma_read : (addr : ℕ) (kind : DmaKind) → Counts w 0 (dma_read bus addr kind)
  unfolding dma_read
  Counts-dma_read addr kind = search (access_rules, Counts-raw_read)

  Counts-dma_start_cycle : Counts w 0 (dma_start_cycle bus)
  unfolding dma_start_cycle
  Counts-dma_start_cycle = search access_rules depth 9

  Counts-dma_end_cycle : (b : Bool) → Counts w 0 (dma_end_cycle bus b)
  unfolding dma_end_cycle
  Counts-dma_end_cycle b = search access_rules depth 9

ruleset dma_rules = (
  access_rules, Counts-raw_read, Counts-raw_write, Counts-dma_read, Counts-dma_start_cycle,
  Counts-dma_end_cycle,
)

module _ {W : Type 0} {w : Bool} (bus : Bus W) where
  Counts-dma_process_cycle : Counts w 0 (dma_process_cycle bus)
  unfolding dma_process_cycle
  Counts-dma_process_cycle = search dma_rules depth 9

  Counts-dummy_cycle : (addr : ℕ) (l : Window bus) → Counts w 0 (dummy_cycle bus addr l)
  unfolding dummy_cycle
  Counts-dummy_cycle addr l = search (dma_rules, Counts-dma_process_cycle) depth 20

  Counts-dmc_cycle : (l : Window bus) → Counts w 0 (dmc_cycle bus l)
  unfolding dmc_cycle
  Counts-dmc_cycle l = search (dma_rules, Counts-dma_process_cycle) depth 20

  Counts-sprite_read_cycle : (l : Window bus) → Counts w 0 (sprite_read_cycle bus l)
  unfolding sprite_read_cycle
  Counts-sprite_read_cycle l = search (dma_rules, Counts-dma_process_cycle) depth 20

  Counts-sprite_write_cycle : (l : Window bus) → Counts w 0 (sprite_write_cycle bus l)
  unfolding sprite_write_cycle
  Counts-sprite_write_cycle l = search (dma_rules, Counts-dma_process_cycle) depth 20

  Counts-dma_round : (addr : ℕ) (l : Window bus) → Counts w 0 (dma_round bus addr l)
  unfolding dma_round
  Counts-dma_round addr l =
      search
        (
          dma_rules, Counts-dummy_cycle, Counts-dmc_cycle, Counts-sprite_read_cycle,
          Counts-sprite_write_cycle,
        )
        depth 20

  Counts-dma_loop : (fuel addr : ℕ) (l : Window bus) → Counts w 0 (dma_loop bus fuel addr l)
  unfolding dma_loop
  Counts-dma_loop zero addr l = search counts_rules
  Counts-dma_loop (suc fuel) addr l =
      let again = Counts-dma_loop fuel addr in
      search (counts_rules, Counts-dma_round, again) depth 20

  Counts-process_pending_dma : (addr : ℕ) → Counts w 0 (process_pending_dma bus addr)
  unfolding process_pending_dma
  Counts-process_pending_dma addr = search (dma_rules, Counts-dma_loop) depth 20

  Counts-drain_dma : (addr : ℕ) → Counts w 0 (drain_dma bus addr)
  unfolding drain_dma
  Counts-drain_dma addr = search (counts_rules, Counts-process_pending_dma) depth 9

  Counts-nes_read : (addr : ℕ) (kind : AccessKind) → Counts w 1 (nes_read bus addr kind)
  unfolding nes_read
  Counts-nes_read addr kind = search (dma_rules, Counts-drain_dma) depth 30

  Counts-nes_write : (addr v : ℕ) → Counts w 1 (nes_write bus addr v)
  unfolding nes_write
  Counts-nes_write addr v = search dma_rules depth 30

  pub Counts-read : (addr : ℕ) → Counts w 1 (read bus addr)
  unfolding read
  Counts-read addr = Counts-per_cycle 1 _ (Counts-nes_read _ _)

  pub Counts-fetch : (addr : ℕ) → Counts w 1 (fetch bus addr)
  unfolding fetch
  Counts-fetch addr = Counts-per_cycle 1 _ (Counts-nes_read _ _)

  pub Counts-write : (addr v : ℕ) → Counts w 1 (write bus addr v)
  unfolding write
  Counts-write addr v = Counts-per_cycle 1 _ (Counts-nes_write _ _)

  pub Counts-idle : (addr : ℕ) → Counts w 1 (idle bus addr)
  unfolding idle
  Counts-idle addr = Counts-per_cycle 1 _ (search (counts_rules, Counts-nes_read) depth 9)

pub ruleset cycle_rules = (counts_rules, Counts-read, Counts-write, Counts-idle)

module _ {W : Type 0} {w : Bool} (bus : Bus W) where
  pub Counts-push : (v : ℕ) → Counts w 1 (push bus v)
  unfolding push
  Counts-push v = search cycle_rules depth 9

  pub Counts-pop : Counts w 1 (pop bus)
  unfolding pop
  Counts-pop = search cycle_rules depth 9

  pub Counts-push16 : (v : ℕ) → Counts w 2 (push16 bus v)
  unfolding push16
  Counts-push16 v = search (counts_rules, Counts-push) depth 9

  pub Counts-pop16 : Counts w 2 (pop16 bus)
  unfolding pop16
  Counts-pop16 = search (counts_rules, Counts-pop) depth 9

pub ruleset access_counts = (cycle_rules, Counts-push, Counts-pop, Counts-push16, Counts-pop16)
