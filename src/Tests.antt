-- ===== src/Tests.antt =====
-- Concrete machines, and the properties applied to them.
pub mod Arithmetic
pub mod Debugger
pub mod Devices
pub mod Listings
pub mod Memories
pub mod Rewinding
pub mod Rings
pub mod Stepping
pub mod Wide
use chippy.Prelude.{ℕ, Bool, true, false, none, some, List, [], ◌==◌, if◌then◌else◌}
use chippy.Cpu.State.{Cpu, Env, Lines, Latches, Clock, Regs, Variant}
use chippy.Memory.{Ram, no_pages}

-- Nothing is raised and no DMA is asked for.
abbrev pub quiet_lines : Lines
quiet_lines = record {
  irq_line = false;
  irq_sources = [];
  nmi_pending = false;
  nmi_line_level = false;
  need_halt = false;
  need_dummy_read = false;
  sprite_dma_transfer = false;
  sprite_dma_offset = 0;
  dmc_dma_running = false;
  abort_dmc_dma = false;
}

abbrev pub quiet_latches : Latches
quiet_latches = record {
  nmi_due = false;
  nmi_poll_prev = false;
  irq_due = false;
  irq_poll_prev = false;
  nmi_line_prev = false;
}

abbrev pub clock_at : ℕ → Clock
clock_at n = record { cycles = n; master_clock = 0; instr_cycles = 0; extra_cycles = 0 }

abbrev pub start_regs : Regs
start_regs = record { a = 0x12; x = 3; y = 0; sp = 0xFD; p = 0x24; pc = 0x0600 }

-- A machine at 0x0600, with its memory.
abbrev pub machine : {W : Type 0} → Variant → Bool → W → Cpu W
machine v per_cycle w = record {
  regs = start_regs;
  clock = clock_at 7;
  latches = quiet_latches;
  env = record { lines = quiet_lines; world = w };
  variant = v;
  nes_cycle = per_cycle;
  halted = false;
  stopped_by_stp = false;
  pending_stall = 0;
}

-- A RAM with the shadow on.
abbrev pub ram_of : (ℕ → ℕ) → Ram
ram_of bytes = record { bytes = bytes; shadow = some no_pages; frozen = [] }
