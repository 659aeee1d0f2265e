-- ===== src/Cpu/World/Accesses.antt =====
-- Every bus access, and every cycle of a DMA window, keeps what the host keeps.
use chippy.Prelude.{ℕ, zero, suc, ◌+◌, ◌-◌, ◌^◌, Bool, u64}
use chippy.Cpu.State.{Bus, AccessKind, DmaKind, pure, maybe, on_env}
use chippy.Cpu.Access.Dma.{
  ask_addr, hook, run_ppu, tick, raw_read, raw_write, dma_read, dma_start_cycle, dma_end_cycle,
  dma_process_cycle, Window, dummy_cycle, dmc_cycle, sprite_read_cycle, sprite_write_cycle,
  dma_round, dma_loop, process_pending_dma,
}
use chippy.Cpu.Access.{
  drain_dma, nes_read, nes_write, bus_read, read, fetch, write, idle, push, pop, push16, pop16,
}
use chippy.Cpu.World.Keeps.{
  Preserves, Keeps, Keeps-pure, Keeps-gets, Keeps-maybe, Keeps-bind, Keeps-on_env, Keeps-ask_byte,
  Keeps-ask_addr, keeps_rules,
}

module _ {W : Type 0} {P : W → Type 0} (bus : Bus W) (host : Preserves P bus) where
  pub Keeps-hook : (addr : ℕ) (kind : AccessKind) → Keeps P (hook bus addr kind)
  unfolding hook
  Keeps-hook addr kind =
      Keeps-maybe bus.access_hook _ _ (Keeps-pure tt)
        (λ f e. Keeps-on_env _ (host.access f e addr kind))

  pub Keeps-run_ppu : Keeps P (run_ppu bus)
  unfolding run_ppu
  Keeps-run_ppu = Keeps-bind _ _ (Keeps-gets _) λ now.
      Keeps-maybe bus.ppu_runner _ _ (Keeps-pure tt)
        (λ f e. Keeps-on_env _ (host.run_ppu f e (u64 (now + 2 ^ 64 - 1))))

  pub Keeps-tick : (n : ℕ) → Keeps P (tick bus n)
  unfolding tick
  Keeps-tick n =
      Keeps-maybe bus.bus_ticker _ _ (Keeps-pure tt) (λ f e. Keeps-on_env _ (host.tick f e n))

  pub Keeps-raw_read : (addr : ℕ) → Keeps P (raw_read bus addr)
  unfolding raw_read
  Keeps-raw_read addr = Keeps-ask_byte _ (host.read addr)

  pub Keeps-raw_write : (addr v : ℕ) → Keeps P (raw_write bus addr v)
  unfolding raw_write
  Keeps-raw_write addr v = Keeps-on_env _ (host.write addr v)

  pub Keeps-dma_read : (addr : ℕ) (kind : DmaKind) → Keeps P (dma_read bus addr kind)
  unfolding dma_read
  Keeps-dma_read addr kind =
      Keeps-maybe bus.dma_bus _ _ (Keeps-raw_read addr)
        (λ f e. Keeps-ask_byte _ (host.read_dma f e addr kind))

  Keeps-dmc_address :
      Keeps P (maybe bus.dmc_fetcher (pure 0) (λ f. ask_addr f.get_dmc_read_address))
  Keeps-dmc_address =
      Keeps-maybe bus.dmc_fetcher _ _ (Keeps-pure 0)
        (λ f e. Keeps-ask_addr _ (host.read_address f e))

  Keeps-dmc_buffer :
      (v : ℕ) → Keeps P (maybe bus.dmc_fetcher (pure tt) (λ f. on_env (f.set_dmc_read_buffer v)))
  Keeps-dmc_buffer v =
      Keeps-maybe bus.dmc_fetcher _ _ (Keeps-pure tt)
        (λ f e. Keeps-on_env _ (host.set_buffer f e v))

  pub Keeps-dma_start_cycle : Keeps P (dma_start_cycle bus)
  unfolding dma_start_cycle
  Keeps-dma_start_cycle = search (keeps_rules, Keeps-run_ppu, Keeps-tick) depth 30

  pub Keeps-dma_end_cycle : (b : Bool) → Keeps P (dma_end_cycle bus b)
  unfolding dma_end_cycle
  Keeps-dma_end_cycle b = search (keeps_rules, Keeps-run_ppu, Keeps-tick) depth 30

  pub Keeps-dma_process_cycle : Keeps P (dma_process_cycle bus)
  unfolding dma_process_cycle
  Keeps-dma_process_cycle = search (keeps_rules, Keeps-dma_start_cycle) depth 30

  pub Keeps-dummy_cycle : (addr : ℕ) (l : Window bus) → Keeps P (dummy_cycle bus addr l)
  unfolding dummy_cycle
  Keeps-dummy_cycle addr l =
      search
        (keeps_rules, Keeps-dma_process_cycle, Keeps-dma_end_cycle, Keeps-dma_read, Keeps-raw_write)
        depth 30

  pub Keeps-dmc_cycle : (l : Window bus) → Keeps P (dmc_cycle bus l)
  unfolding dmc_cycle
  Keeps-dmc_cycle l =
      search
        (
          keeps_rules, Keeps-dma_process_cycle, Keeps-dma_end_cycle, Keeps-dma_read,
          Keeps-raw_write, Keeps-dmc_address, Keeps-dmc_buffer,
        )
        depth 30

  pub Keeps-sprite_read_cycle : (l : Window bus) → Keeps P (sprite_read_cycle bus l)
  unfolding sprite_read_cycle
  Keeps-sprite_read_cycle l =
      search
        (keeps_rules, Keeps-dma_process_cycle, Keeps-dma_end_cycle, Keeps-dma_read, Keeps-raw_write)
        depth 30

  pub Keeps-sprite_write_cycle : (l : Window bus) → Keeps P (sprite_write_cycle bus l)
  unfolding sprite_write_cycle
  Keeps-sprite_write_cycle l =
      search
        (keeps_rules, Keeps-dma_process_cycle, Keeps-dma_end_cycle, Keeps-dma_read, Keeps-raw_write)
        depth 30

  pub Keeps-dma_round : (addr : ℕ) (l : Window bus) → Keeps P (dma_round bus addr l)
  unfolding dma_round
  Keeps-dma_round addr l =
      search
        (
          keeps_rules, Keeps-dummy_cycle, Keeps-dmc_cycle, Keeps-sprite_read_cycle,
          Keeps-sprite_write_cycle,
        )
        depth 30

  pub Keeps-dma_loop : (fuel addr : ℕ) (l : Window bus) → Keeps P (dma_loop bus fuel addr l)
  unfolding dma_loop
  Keeps-dma_loop zero addr l = search keeps_rules
  Keeps-dma_loop (suc fuel) addr l =
      let again = Keeps-dma_loop fuel addr in search (keeps_rules, Keeps-dma_round, again) depth 20

  pub Keeps-process_pending_dma : (addr : ℕ) → Keeps P (process_pending_dma bus addr)
  unfolding process_pending_dma
  Keeps-process_pending_dma addr =
      search
        (keeps_rules, Keeps-dma_loop, Keeps-dma_start_cycle, Keeps-dma_end_cycle, Keeps-dma_read)
        depth 30

  pub Keeps-drain_dma : (addr : ℕ) → Keeps P (drain_dma bus addr)
  unfolding drain_dma
  Keeps-drain_dma addr = search (keeps_rules, Keeps-process_pending_dma) depth 30

  pub Keeps-nes_read : (addr : ℕ) (kind : AccessKind) → Keeps P (nes_read bus addr kind)
  unfolding nes_read
  Keeps-nes_read addr kind =
      search (keeps_rules, Keeps-drain_dma, Keeps-run_ppu, Keeps-tick, Keeps-raw_read, Keeps-hook)
        depth 30

  pub Keeps-nes_write : (addr : ℕ) (v : ℕ) → Keeps P (nes_write bus addr v)
  unfolding nes_write
  Keeps-nes_write addr v =
      search (keeps_rules, Keeps-run_ppu, Keeps-tick, Keeps-raw_write, Keeps-hook) depth 30

  pub Keeps-bus_read : (addr : ℕ) (kind : AccessKind) → Keeps P (bus_read bus addr kind)
  unfolding bus_read
  Keeps-bus_read addr kind =
      search (keeps_rules, Keeps-nes_read, Keeps-raw_read, Keeps-hook) depth 30

  pub Keeps-read : (addr : ℕ) → Keeps P (read bus addr)
  unfolding read
  Keeps-read addr = search (keeps_rules, Keeps-bus_read) depth 30

  pub Keeps-fetch : (addr : ℕ) → Keeps P (fetch bus addr)
  unfolding fetch
  Keeps-fetch addr = search (keeps_rules, Keeps-bus_read) depth 30

  pub Keeps-write : (addr : ℕ) (v : ℕ) → Keeps P (write bus addr v)
  unfolding write
  Keeps-write addr v = search (keeps_rules, Keeps-nes_write, Keeps-raw_write, Keeps-hook) depth 30

  pub Keeps-idle : (addr : ℕ) → Keeps P (idle bus addr)
  unfolding idle
  Keeps-idle addr = search (keeps_rules, Keeps-nes_read) depth 30

  pub Keeps-push : (v : ℕ) → Keeps P (push bus v)
  unfolding push
  Keeps-push v = search (keeps_rules, Keeps-write) depth 30

  pub Keeps-pop : Keeps P (pop bus)
  unfolding pop
  Keeps-pop = search (keeps_rules, Keeps-read) depth 30

  pub Keeps-push16 : (v : ℕ) → Keeps P (push16 bus v)
  unfolding push16
  Keeps-push16 v = search (keeps_rules, Keeps-push) depth 30

  pub Keeps-pop16 : Keeps P (pop16 bus)
  unfolding pop16
  Keeps-pop16 = search (keeps_rules, Keeps-pop) depth 30
