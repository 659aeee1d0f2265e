-- ===== src/Cpu/State.antt =====
-- The CPU record of cpu/cpu.go, its fields in groups, the bus and the hooks that the host wires
-- up (cpu/memory.go, cpu/ticker.go, cpu/dma.go, cpu/access.go), and the actions on that state.
use chippy.Prelude.{ℕ, ◌+◌, Bool, Option, none, some, List, String, u64}

-- `VariantW65816` is another core, with a memory and an opcode dispatch of its own.
pub data Variant : Type 0 where
  nmos cmos65c02 nes : Variant

pub data AccessKind : Type 0 where
  access_read access_write access_exec : AccessKind

pub data DmaKind : Type 0 where
  dma_dummy_read dma_sprite_read dma_dmc_read : DmaKind

pub record Regs : Type 0 where
  pub a : ℕ
  pub x : ℕ
  pub y : ℕ
  pub sp : ℕ
  pub p : ℕ
  pub pc : ℕ

-- What the devices on the bus drive through the CPU's exported methods, also from inside a
-- bus access.
pub record Lines : Type 0 where
  pub irq_line : Bool
  pub irq_sources : List String
  pub nmi_pending : Bool
  pub nmi_line_level : Bool
  pub need_halt : Bool
  pub need_dummy_read : Bool
  pub sprite_dma_transfer : Bool
  pub sprite_dma_offset : ℕ
  pub dmc_dma_running : Bool
  pub abort_dmc_dma : Bool

-- The lines with the state of the devices, which is a parameter.
pub record Env (W : Type 0) : Type 0 where
  pub lines : Lines
  pub open lines use *
  pub world : W

-- The interrupt-poll latches.
pub record Latches : Type 0 where
  pub nmi_due : Bool
  pub nmi_poll_prev : Bool
  pub irq_due : Bool
  pub irq_poll_prev : Bool
  pub nmi_line_prev : Bool

-- `instr_cycles` and `extra_cycles` are `int`s that every instruction starts at 0.
pub record Clock : Type 0 where
  pub cycles : ℕ
  pub master_clock : ℕ
  pub instr_cycles : ℕ
  pub extra_cycles : ℕ

pub record Cpu (W : Type 0) : Type 0 where
  pub regs : Regs
  pub clock : Clock
  pub latches : Latches
  pub env : Env W
  pub variant : Variant
  pub nes_cycle : Bool
  pub halted : Bool
  pub stopped_by_stp : Bool
  pub pending_stall : ℕ

pub record DmcFetcher (W : Type 0) : Type 0 where
  pub get_dmc_read_address : Env W → ℕ × Env W
  pub set_dmc_read_buffer : ℕ → Env W → Env W

-- The host's side: `Bus`, and what `SetBus` and the setters found on it (`none` is nil).
pub record Bus (W : Type 0) : Type 0 where
  pub read : ℕ → Env W → ℕ × Env W
  pub write : ℕ → ℕ → Env W → Env W
  pub bus_ticker : Option (ℕ → Env W → Env W)
  pub dma_bus : Option (ℕ → DmaKind → Env W → ℕ × Env W)
  pub access_hook : Option (ℕ → AccessKind → Env W → Env W)
  pub ppu_runner : Option (ℕ → Env W → Env W)
  pub dmc_fetcher : Option (DmcFetcher W)

-- An action: what a method returns, and the CPU that it leaves.
abbrev pub M : Type 0 → Type 0 → Type 0
M W A = Cpu W → A × Cpu W

module _ {W A B : Type 0} where
  infixl 10 ◌>>=◌ ◌>>◌
  unfoldable pub ◌>>=◌ : M W A → (A → M W B) → M W B
  ◌>>=◌ m f c = let (a, c') = m c in f a c'

  abbrev pub ◌>>◌ : M W A → M W B → M W B
  m >> n = m >>= λ _. n

  -- `if o != nil`
  unfoldable pub maybe : Option A → M W B → (A → M W B) → M W B
  maybe none m f = m
  maybe (some a) m f = f a

module _ {W : Type 0} where
  unfoldable pub pure : {A : Type 0} → A → M W A
  pure a c = (a, c)

  unfoldable pub gets : {A : Type 0} → (Cpu W → A) → M W A
  gets f c = (f c, c)

  unfoldable pub regs : M W Regs
  regs c = (c.regs, c)

  unfoldable pub variant : M W Variant
  variant c = (c.variant, c)

  unfoldable pub on_regs : (Regs → Regs) → M W (Unit {0})
  on_regs f c = (tt, record c { regs = f c.regs })

  unfoldable pub on_env : (Env W → Env W) → M W (Unit {0})
  on_env f c = (tt, record c { env = f c.env })

  unfoldable pub on_lines : (Lines → Lines) → M W (Unit {0})
  on_lines f c = (tt, record c { env = record (c.env) { lines = f c.env.lines } })

  unfoldable pub on_latches : (Latches → Latches) → M W (Unit {0})
  on_latches f c = (tt, record c { latches = f c.latches })

  unfoldable pub set_halted : Bool → M W (Unit {0})
  set_halted b c = (tt, record c { halted = b })

  unfoldable pub set_stopped_by_stp : Bool → M W (Unit {0})
  set_stopped_by_stp b c = (tt, record c { stopped_by_stp = b })

  -- `c.Cycles += n`
  unfoldable pub add_cycles : ℕ → M W (Unit {0})
  add_cycles n c = (tt, record c { clock = record (c.clock) { cycles = u64 (c.clock.cycles + n) } })

  -- `c.masterClock += n`
  unfoldable pub add_master_clock : ℕ → M W (Unit {0})
  add_master_clock n c =
      (tt, record c { clock = record (c.clock) { master_clock = u64 (c.clock.master_clock + n) } })

  -- `c.instrCycles++`
  unfoldable pub instr_cycle : M W (Unit {0})
  instr_cycle c =
      (tt, record c { clock = record (c.clock) { instr_cycles = c.clock.instr_cycles + 1 } })

  -- `c.extraCycles++`
  unfoldable pub extra_cycle : M W (Unit {0})
  extra_cycle c =
      (tt, record c { clock = record (c.clock) { extra_cycles = c.clock.extra_cycles + 1 } })
