-- ===== src/Cpu/FullState/Restored.antt =====
-- A loaded save state is the machine that was saved, as far as the file goes.
use text.Mathlib.Text.{◌==◌ as str_eq}
use Prim.Native.Nat.{Ordering}
use Prim.Native.String.{compare}
use chippy.Prelude.{◌≡◌, refl, ap, ◌∙◌, Bool, true, false, ◌||◌, List, [], ◌∷◌, String}
use chippy.Cpu.State.{Cpu}
use chippy.Cpu.Lines.{has_source}
use chippy.Cpu.Lines.Wired.{has_source-add}
use chippy.Cpu.FullState.{
  placed, insert, sort_strings, source_set, save_full_state, load_full_state,
}

or_swap : (a b c : Bool) → (a || (b || c)) ≡ (b || (a || c))
or_swap true true c = refl
or_swap true false c = refl
or_swap false b c = refl

has_source-placed :
    (o : Ordering) (s t : String) (l rest : List String) (u : String)
    → has_source rest u ≡ (str_eq s u || has_source l u)
    → has_source (placed o s t l rest) u ≡ (str_eq s u || (str_eq t u || has_source l u))
unfolding has_source
has_source-placed Ordering.gt s t l rest u h =
    ap (λ b. str_eq t u || b) h ∙ or_swap (str_eq t u) (str_eq s u) (has_source l u)
has_source-placed o s t l rest u h = refl

has_source-insert :
    (s : String) (l : List String) (u : String)
    → has_source (insert s l) u ≡ (str_eq s u || has_source l u)
unfolding insert has_source
has_source-insert s [] u = refl
has_source-insert s (t ∷ l) u =
    has_source-placed (compare s t) s t l (insert s l) u (has_source-insert s l u)

has_source-sort : (l : List String) (u : String) → has_source (sort_strings l) u ≡ has_source l u
unfolding sort_strings has_source
has_source-sort [] u = refl
has_source-sort (s ∷ l) u =
    has_source-insert s (sort_strings l) u ∙ ap (λ b. str_eq s u || b) (has_source-sort l u)

has_source-set : (l : List String) (u : String) → has_source (source_set l) u ≡ has_source l u
unfolding source_set has_source
has_source-set [] u = refl
has_source-set (s ∷ l) u =
    has_source-add (source_set l) s u ∙ ap (λ b. str_eq s u || b) (has_source-set l u)

-- The parts that a save state does not hold.
pub record IsUntouched {W : Type 0} (d e : Cpu W) : Type 0 where
  pub world : e.env.world ≡ d.env.world
  pub nes_cycle : e.nes_cycle ≡ d.nes_cycle
  pub master_clock : e.clock.master_clock ≡ d.clock.master_clock
  pub instr_cycles : e.clock.instr_cycles ≡ d.clock.instr_cycles
  pub irq_due : e.latches.irq_due ≡ d.latches.irq_due
  pub nmi_poll_prev : e.latches.nmi_poll_prev ≡ d.latches.nmi_poll_prev
  pub irq_poll_prev : e.latches.irq_poll_prev ≡ d.latches.irq_poll_prev
  pub nmi_line_prev : e.latches.nmi_line_prev ≡ d.latches.nmi_line_prev
  pub nmi_line_level : e.env.lines.nmi_line_level ≡ d.env.lines.nmi_line_level
  pub need_halt : e.env.lines.need_halt ≡ d.env.lines.need_halt
  pub need_dummy_read : e.env.lines.need_dummy_read ≡ d.env.lines.need_dummy_read
  pub sprite_dma_transfer : e.env.lines.sprite_dma_transfer ≡ d.env.lines.sprite_dma_transfer
  pub sprite_dma_offset : e.env.lines.sprite_dma_offset ≡ d.env.lines.sprite_dma_offset
  pub dmc_dma_running : e.env.lines.dmc_dma_running ≡ d.env.lines.dmc_dma_running
  pub abort_dmc_dma : e.env.lines.abort_dmc_dma ≡ d.env.lines.abort_dmc_dma

-- `e` is `d` with what a save state holds of `c`.
pub record IsRestored {W : Type 0} (c d e : Cpu W) : Type 0 where
  pub regs : e.regs ≡ c.regs
  pub cycles : e.clock.cycles ≡ c.clock.cycles
  pub variant : e.variant ≡ c.variant
  pub halted : e.halted ≡ c.halted
  pub stopped_by_stp : e.stopped_by_stp ≡ c.stopped_by_stp
  pub extra_cycles : e.clock.extra_cycles ≡ c.clock.extra_cycles
  pub irq_line : e.env.lines.irq_line ≡ c.env.lines.irq_line
  pub nmi_pending : e.env.lines.nmi_pending ≡ c.env.lines.nmi_pending
  pub nmi_due : e.latches.nmi_due ≡ c.latches.nmi_due
  pub pending_stall : e.pending_stall ≡ c.pending_stall
  pub irq_sources :
      (u : String) → has_source e.env.lines.irq_sources u ≡ has_source c.env.lines.irq_sources u
  pub untouched : IsUntouched d e

-- Loading the state that was saved from one CPU into any other gives that one the saved CPU's
-- registers, cycle count, variant, halt flags, extra cycles, interrupt line, pending and due NMI,
-- stall and set of interrupt sources. The bus's devices, the cached per-cycle flag, the other two
-- clock counters, the other four latches, the NMI line's level and the six DMA fields stay those of
-- the CPU loaded into.
pub load-save : {W : Type 0} (c d : Cpu W) → IsRestored c d (load_full_state (save_full_state c) d)
unfolding load_full_state save_full_state
load-save c d = record {
  regs = refl;
  cycles = refl;
  variant = refl;
  halted = refl;
  stopped_by_stp = refl;
  extra_cycles = refl;
  irq_line = refl;
  nmi_pending = refl;
  nmi_due = refl;
  pending_stall = refl;
  irq_sources = λ u.
      has_source-set (sort_strings c.env.lines.irq_sources) u
      ∙ has_source-sort c.env.lines.irq_sources u;
  untouched = record {
    world = refl;
    nes_cycle = refl;
    master_clock = refl;
    instr_cycles = refl;
    irq_due = refl;
    nmi_poll_prev = refl;
    irq_poll_prev = refl;
    nmi_line_prev = refl;
    nmi_line_level = refl;
    need_halt = refl;
    need_dummy_read = refl;
    sprite_dma_transfer = refl;
    sprite_dma_offset = refl;
    dmc_dma_running = refl;
    abort_dmc_dma = refl;
  };
}
