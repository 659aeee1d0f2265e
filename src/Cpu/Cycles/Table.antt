-- ===== src/Cpu/Cycles/Table.antt =====
-- The cycle counts of the opcode table against the ticks of modes and handlers.
use chippy.Prelude.{
  ℕ, ◌+◌, ◌<◌, ◌≡◌, refl, Bool, true, false, not, ◌&&◌, ◌||◌, ◌==◌, ==_iff, if◌then◌else◌,
  each_below, each_below_at,
}
use chippy.Cpu.Instr.{Instr}
use chippy.Cpu.Table.{opcodes}
use chippy.Cpu.Cycles.Modes.{resolve_ticks, dummy_ticks}
use chippy.Cpu.Cycles.Ops.{op_ticks}

-- The ticks of an instruction, its fetch included, extra cycles not.
unfoldable pub instr_ticks : Instr → Bool → ℕ
instr_ticks i crossed =
    1
    + resolve_ticks i.mode
    + dummy_ticks i.mode i.cycles (not i.page_add || crossed)
    + op_ticks i.op i.mode

unfoldable pub listed_cycles : Instr → Bool → ℕ
listed_cycles i crossed = i.cycles + (if i.page_add && crossed then 1 else 0)

balanced : Bool → ℕ → Bool
unfolding instr_ticks listed_cycles
balanced crossed code = instr_ticks (opcodes code) crossed == listed_cycles (opcodes code) crossed

all_balanced : (crossed : Bool) → each_below 256 (balanced crossed) ≡ true
unfolding each_below balanced resolve_ticks dummy_ticks op_ticks opcodes
all_balanced true = refl
all_balanced false = refl

-- In the NMOS table every opcode lists as many cycles as `instr_ticks` adds up for it, with a page
-- crossed or not.
pub instr_ticks-eq-listed_cycles :
    (code : ℕ) (crossed : Bool)
    → code < 256
    → instr_ticks (opcodes code) crossed ≡ listed_cycles (opcodes code) crossed
unfolding balanced
instr_ticks-eq-listed_cycles code crossed h =
    (==_iff _ _).0 (each_below_at 256 (balanced crossed) code (all_balanced crossed) h)
