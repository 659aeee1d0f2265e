-- ===== src/Cpu/Lines.antt =====
-- The exported methods of cpu/cpu.go by which a device raises and releases interrupts and asks
-- for DMA, and Reset.
pub mod Wired
use text.Mathlib.Text.{◌==◌ as str_eq}
use chippy.Prelude.{
  ℕ, zero, suc, ◌+◌, Bool, true, false, not, ◌&&◌, ◌||◌, bit_or, Option, none, some, List, [], ◌∷◌,
  String, u8, u64, word, if◌then◌else◌,
}
use chippy.Cpu.State.{M, Cpu, Bus, Env, Lines, Variant, nes}
use chippy.Cpu.State.{
  ◌>>=◌, ◌>>◌, pure, gets, variant, on_regs, instr_cycle, add_master_clock, set_halted,
  set_stopped_by_stp,
}
use chippy.Cpu.Access.Dma.{raw_read, run_ppu, tick, sample_nmi, dma_end_cycle}
use chippy.Cpu.Flags.{flag_u, flag_i}
use chippy.Cpu.Ops.{is_nes}

-- The set of sources, without repetition.
unfoldable pub has_source : List String → String → Bool
has_source [] s = false
has_source (t ∷ l) s = str_eq t s || has_source l s

unfoldable pub delete : List String → String → List String
delete [] s = []
delete (t ∷ l) s = let rest = delete l s in if str_eq t s then rest else t ∷ rest

abbrev pub is_empty {ℓ} : {A : Type ℓ} → List A → Bool
is_empty [] = true
is_empty (t ∷ l) = false

unfoldable pub assert_irq_source : String → Lines → Lines
unfolding has_source
assert_irq_source s l = record l {
  irq_sources = if has_source l.irq_sources s then l.irq_sources else s ∷ l.irq_sources;
  irq_line = true;
}

unfoldable pub clear_irq_source : String → Lines → Lines
unfolding delete
clear_irq_source s l =
    let rest = delete l.irq_sources s in
    record l { irq_sources = rest; irq_line = not (is_empty rest) }

unfoldable pub assert_irq : Lines → Lines
unfolding assert_irq_source
assert_irq = assert_irq_source ""

unfoldable pub release_irq : Lines → Lines
unfolding clear_irq_source
release_irq = clear_irq_source ""

unfoldable pub trigger_nmi : Lines → Lines
trigger_nmi l = record l { nmi_pending = true }

unfoldable pub set_nmi_line : Bool → Lines → Lines
set_nmi_line level l = record l { nmi_line_level = level }

unfoldable pub set_need_sprite_dma : ℕ → Lines → Lines
set_need_sprite_dma page l = record l {
  sprite_dma_offset = page;
  sprite_dma_transfer = true;
  need_halt = true;
}

unfoldable pub set_need_dmc_dma : Lines → Lines
set_need_dmc_dma l = record l { dmc_dma_running = true; need_dummy_read = true; need_halt = true }

unfoldable pub abort_dmc_dma : Lines → Lines
abort_dmc_dma l = record l { abort_dmc_dma = true }

-- `o != nil`
abbrev pub is_wired : {A : Type 0} → Option A → Bool
is_wired none = false
is_wired (some f) = true

module _ {W : Type 0} where
  unfoldable pub set_cycles : ℕ → M W (Unit {0})
  set_cycles n c = (tt, record c { clock = record (c.clock) { cycles = n } })

  unfoldable pub set_master_clock : ℕ → M W (Unit {0})
  set_master_clock n c = (tt, record c { clock = record (c.clock) { master_clock = n } })

module _ {W : Type 0} (bus : Bus W) where
  unfoldable pub stall_tick : M W (Unit {0})
  stall_tick = do instr_cycle; add_master_clock 12; run_ppu bus; tick bus 1; sample_nmi

  unfoldable pub stall_ticks : ℕ → M W (Unit {0})
  stall_ticks zero = pure tt
  stall_ticks (suc n) = do stall_tick; stall_ticks n

  unfoldable pub has_nes_clock : Variant → Bool
  has_nes_clock v = is_nes v && is_wired bus.bus_ticker && is_wired bus.ppu_runner

  unfoldable pub reset : M W (Unit {0})
  reset = do
    on_regs (λ r. record r { a = 0; x = 0; y = 0; sp = 0xFD; p = bit_or flag_u flag_i })
    lo ← raw_read bus 0xFFFC
    hi ← raw_read bus 0xFFFD
    on_regs (λ r. record r { pc = word lo hi })
    set_cycles 7
    set_halted false
    set_stopped_by_stp false
    v ← variant
    if has_nes_clock v then (do set_master_clock 12; stall_ticks 8) else pure tt
