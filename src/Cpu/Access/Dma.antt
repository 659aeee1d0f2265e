-- ===== src/Cpu/Access/Dma.antt =====
-- cpu/dma.go, with the hooks and the latch sampling of cpu/cpu.go that every bus cycle shares.
use chippy.Prelude.{
  ℕ, zero, suc, ◌+◌, ◌-◌, ◌*◌, ◌^◌, Bool, true, false, not, ◌&&◌, ◌||◌, u8, u16, u64, bit_or,
  bit_and, ◌==◌, if◌then◌else◌,
}
use chippy.Cpu.State.{
  M, Cpu, Bus, Env, Lines, AccessKind, DmaKind, dma_dummy_read, dma_sprite_read, dma_dmc_read,
}
use chippy.Cpu.State.{
  ◌>>=◌, ◌>>◌, pure, gets, maybe, on_env, on_lines, add_cycles, add_master_clock,
}
use chippy.Cpu.Flags.{has_flag, flag_i}

module _ {W : Type 0} where
  -- A call into the host that returns a value of Go's type `byte`.
  unfoldable pub ask_byte : (Env W → ℕ × Env W) → M W ℕ
  ask_byte f c = let (v, e) = f c.env in (u8 v, record c { env = e })

  unfoldable pub ask_addr : (Env W → ℕ × Env W) → M W ℕ
  ask_addr f c = let (v, e) = f c.env in (u16 v, record c { env = e })

  unfoldable pub sample_nmi : M W (Unit {0})
  sample_nmi c =
      let l = c.env.lines in
      let s = c.latches in
      let pending = (if l.nmi_line_level && not s.nmi_line_prev then true else l.nmi_pending) in
      (
        tt,
        record c {
          env = record (c.env) { lines = record l { nmi_pending = pending } };
          latches = record {
            nmi_due = s.nmi_poll_prev;
            nmi_poll_prev = pending;
            irq_due = s.irq_poll_prev;
            irq_poll_prev = l.irq_line && not (has_flag flag_i c.regs);
            nmi_line_prev = l.nmi_line_level;
          };
        },
      )

module _ {W : Type 0} (bus : Bus W) where
  unfoldable pub hook : ℕ → AccessKind → M W (Unit {0})
  hook addr kind = maybe bus.access_hook (pure tt) (λ f. on_env (f addr kind))

  -- `c.ppuRunner.Run(c.masterClock - cpuPPUOffset)`
  unfoldable pub run_ppu : M W (Unit {0})
  run_ppu = do
    now ← gets (λ c. c.clock.master_clock)
    maybe bus.ppu_runner (pure tt) (λ f. on_env (f (u64 (now + 2 ^ 64 - 1))))

  unfoldable pub tick : ℕ → M W (Unit {0})
  tick n = maybe bus.bus_ticker (pure tt) (λ f. on_env (f n))

  unfoldable pub raw_read : ℕ → M W ℕ
  raw_read addr = ask_byte (bus.read addr)

  unfoldable pub raw_write : ℕ → ℕ → M W (Unit {0})
  raw_write addr v = on_env (bus.write addr v)

  unfoldable pub dma_read : ℕ → DmaKind → M W ℕ
  dma_read addr kind = maybe bus.dma_bus (raw_read addr) (λ f. ask_byte (f addr kind))

  unfoldable pub dma_start_cycle : M W (Unit {0})
  dma_start_cycle = do add_master_clock 5; add_cycles 1; run_ppu; tick 1

  unfoldable pub dma_end_cycle : Bool → M W (Unit {0})
  dma_end_cycle for_read = do add_master_clock (if for_read then 7 else 5); run_ppu; sample_nmi

  -- The flag bookkeeping of dmaProcessCycle.
  unfoldable pub dma_flags : Lines → Lines
  dma_flags l =
      if l.abort_dmc_dma
      then record l {
        dmc_dma_running = false;
        abort_dmc_dma = false;
        need_dummy_read = false;
        need_halt = false;
      }
      else if l.need_halt
      then record l { need_halt = false }
      else if l.need_dummy_read
      then record l { need_dummy_read = false }
      else l

  unfoldable pub dma_process_cycle : M W (Unit {0})
  dma_process_cycle = do on_lines dma_flags; dma_start_cycle

  -- The local variables of the loop.
  pub record Window : Type 0 where
    pub sprite_dma_counter : ℕ
    pub sprite_read_addr : ℕ
    pub read_value : ℕ

  unfoldable pub dummy_cycle : ℕ → Window → M W Window
  dummy_cycle read_address w = do
    dma_process_cycle
    dma_read read_address dma_dummy_read
    dma_end_cycle true
    pure w

  unfoldable pub dmc_cycle : Window → M W Window
  dmc_cycle w = do
    dma_process_cycle
    addr ← maybe bus.dmc_fetcher (pure 0) (λ f. ask_addr f.get_dmc_read_address)
    v ← dma_read addr dma_dmc_read
    dma_end_cycle true
    on_lines (λ l. record l { dmc_dma_running = false; abort_dmc_dma = false })
    maybe bus.dmc_fetcher (pure tt) (λ f. on_env (f.set_dmc_read_buffer v))
    pure (record w { read_value = v })

  unfoldable pub sprite_read_cycle : Window → M W Window
  sprite_read_cycle w = do
    dma_process_cycle
    page ← gets (λ c. c.env.lines.sprite_dma_offset)
    v ← dma_read (bit_or (u16 (page * 256)) w.sprite_read_addr) dma_sprite_read
    dma_end_cycle true
    pure (record {
      sprite_dma_counter = w.sprite_dma_counter + 1;
      sprite_read_addr = u8 (w.sprite_read_addr + 1);
      read_value = v;
    })

  unfoldable pub sprite_write_cycle : Window → M W Window
  sprite_write_cycle w = do
    dma_process_cycle
    raw_write 0x2004 w.read_value
    dma_end_cycle false
    let n = w.sprite_dma_counter + 1
    if n == 0x200 then on_lines (λ l. record l { sprite_dma_transfer = false }) else pure tt
    pure (record w { sprite_dma_counter = n })

  -- `(c.Cycles + uint64(c.instrCycles)) & 1 == 0`
  unfoldable pub get_cycle : Cpu W → Bool
  get_cycle c = bit_and (u64 (c.clock.cycles + c.clock.instr_cycles)) 1 == 0

  -- One round of the loop: a get cycle on even parity, a put cycle on odd parity.
  unfoldable pub dma_round : ℕ → Window → M W Window
  dma_round read_address w = do
    get ← gets get_cycle
    l ← gets (λ c. c.env.lines)
    if get
        then (if l.dmc_dma_running && not l.need_halt && not l.need_dummy_read
            then dmc_cycle w
            else if l.sprite_dma_transfer
            then sprite_read_cycle w
            else dummy_cycle read_address w)
        else (if l.sprite_dma_transfer && bit_and w.sprite_dma_counter 1 == 1
            then sprite_write_cycle w
            else dummy_cycle read_address w)

  unfoldable pub dma_loop : ℕ → ℕ → Window → M W (Unit {0})
  dma_loop zero read_address w = pure tt
  dma_loop (suc fuel) read_address w = do
    active ← gets (λ c. c.env.lines.dmc_dma_running || c.env.lines.sprite_dma_transfer)
    if active then (do w' ← dma_round read_address w; dma_loop fuel read_address w') else pure tt

  abbrev pub dma_fuel : ℕ
  dma_fuel = 4096

  -- The caller has seen `needHalt`.
  unfoldable pub process_pending_dma : ℕ → M W (Unit {0})
  process_pending_dma read_address = do
    on_lines (λ l. record l { need_halt = false })
    dma_start_cycle
    dma_read read_address dma_dummy_read
    dma_end_cycle true
    dma_loop dma_fuel read_address
        (record { sprite_dma_counter = 0; sprite_read_addr = 0; read_value = 0 })
