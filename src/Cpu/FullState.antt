-- ===== src/Cpu/FullState.antt =====
-- cpu/state.go: the save state of a CPU, and the RAM's of cpu/memory.go.
pub mod Restored
use Prim.Native.Nat.{Ordering}
use Prim.Native.String.{compare}
use chippy.Prelude.{
  ℕ, zero, suc, ◌+◌, Bool, true, false, Option, none, some, List, [], ◌∷◌, String, length, ◌==◌,
  if◌then◌else◌,
}
use chippy.Cpu.State.{Cpu, Regs, Variant, Lines}
use chippy.Cpu.Lines.{has_source, assert_irq_source}
use chippy.Memory.{Ram, no_pages, Pages}

pub record FullState : Type 0 where
  pub regs : Regs
  pub cycles : ℕ
  pub variant : Variant
  pub halted : Bool
  pub stopped_by_stp : Bool
  pub extra_cycles : ℕ
  pub irq_line : Bool
  pub nmi_pending : Bool
  pub nmi_due : Bool
  pub pending_stall : ℕ
  pub irq_sources : List String

-- sort.Strings
abbrev pub placed : Ordering → String → String → List String → List String → List String
placed Ordering.gt s t l rest = t ∷ rest
placed o s t l rest = s ∷ t ∷ l

unfoldable pub insert : String → List String → List String
insert s [] = s ∷ []
insert s (t ∷ l) = placed (compare s t) s t l (insert s l)

unfoldable pub sort_strings : List String → List String
unfolding insert
sort_strings [] = []
sort_strings (s ∷ l) = insert s (sort_strings l)

-- The keys of a new map.
unfoldable pub source_set : List String → List String
unfolding has_source
source_set [] = []
source_set (s ∷ l) = let rest = source_set l in if has_source rest s then rest else s ∷ rest

module _ {W : Type 0} where
  unfoldable pub save_full_state : Cpu W → FullState
  unfolding sort_strings
  save_full_state c = record {
    regs = c.regs;
    cycles = c.clock.cycles;
    variant = c.variant;
    halted = c.halted;
    stopped_by_stp = c.stopped_by_stp;
    extra_cycles = c.clock.extra_cycles;
    irq_line = c.env.lines.irq_line;
    nmi_pending = c.env.lines.nmi_pending;
    nmi_due = c.latches.nmi_due;
    pending_stall = c.pending_stall;
    irq_sources = sort_strings c.env.lines.irq_sources;
  }

  -- The opcode table is a function of the variant, so that bindTable has no counterpart.
  unfoldable pub load_full_state : FullState → Cpu W → Cpu W
  unfolding source_set
  load_full_state s c = record c {
    regs = s.regs;
    clock = record (c.clock) { cycles = s.cycles; extra_cycles = s.extra_cycles };
    variant = s.variant;
    halted = s.halted;
    stopped_by_stp = s.stopped_by_stp;
    latches = record (c.latches) { nmi_due = s.nmi_due };
    env = record (c.env) {
      lines = record (c.env.lines) {
        irq_line = s.irq_line;
        nmi_pending = s.nmi_pending;
        irq_sources = source_set s.irq_sources;
      };
    };
    pending_stall = s.pending_stall;
  }
