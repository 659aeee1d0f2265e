-- ===== src/Cpu/World/Keeps.antt =====
-- Predicates on the state of the devices, and the rules by which actions keep them.
use chippy.Prelude.{ℕ, ◌≡◌, refl, Bool, true, false, Option, none, some, if◌then◌else◌}
use chippy.Cpu.State.{
  M, Cpu, Bus, DmcFetcher, AccessKind, DmaKind, Env, Lines, Regs, Latches, ◌>>=◌, pure, gets, maybe,
  regs, variant, on_regs, on_env, on_lines, on_latches, add_cycles, add_master_clock, instr_cycle,
  extra_cycle, set_halted, set_stopped_by_stp,
}
use chippy.Cpu.Access.Dma.{ask_byte, ask_addr, sample_nmi}

-- Every call into the host keeps `P`.
pub record Preserves {W : Type 0} (P : W → Type 0) (bus : Bus W) : Type 0 where
  pub read : (addr : ℕ) (e : Env W) → P e.world → P (bus.read addr e).1.world
  pub write : (addr v : ℕ) (e : Env W) → P e.world → P (bus.write addr v e).world
  pub tick :
      (f : ℕ → Env W → Env W)
      → bus.bus_ticker ≡ some f
      → (n : ℕ) (e : Env W) → P e.world
      → P (f n e).world
  pub read_dma :
      (f : ℕ → DmaKind → Env W → ℕ × Env W)
      → bus.dma_bus ≡ some f
      → (addr : ℕ) (kind : DmaKind) (e : Env W) → P e.world
      → P (f addr kind e).1.world
  pub access :
      (f : ℕ → AccessKind → Env W → Env W)
      → bus.access_hook ≡ some f
      → (addr : ℕ) (kind : AccessKind) (e : Env W) → P e.world
      → P (f addr kind e).world
  pub run_ppu :
      (f : ℕ → Env W → Env W)
      → bus.ppu_runner ≡ some f
      → (n : ℕ) (e : Env W) → P e.world
      → P (f n e).world
  pub read_address :
      (f : DmcFetcher W)
      → bus.dmc_fetcher ≡ some f
      → (e : Env W) → P e.world
      → P (f.get_dmc_read_address e).1.world
  pub set_buffer :
      (f : DmcFetcher W)
      → bus.dmc_fetcher ≡ some f
      → (v : ℕ) (e : Env W) → P e.world
      → P (f.set_dmc_read_buffer v e).world

pub record Keeps {W A : Type 0} (P : W → Type 0) (m : M W A) : Type 0 where
  pub at : (c : Cpu W) → P c.env.world → P (m c).1.env.world

module _ {W A : Type 0} {P : W → Type 0} where
  pub Keeps-pure : (a : A) → Keeps P (pure a)
  unfolding pure
  Keeps-pure a = record { at = λ c h. h }

  pub Keeps-gets : (f : Cpu W → A) → Keeps P (gets f)
  unfolding gets
  Keeps-gets f = record { at = λ c h. h }

  pub Keeps-if : (b : Bool) (m k : M W A) → Keeps P m → Keeps P k → Keeps P (if b then m else k)
  Keeps-if true m k h j = h
  Keeps-if false m k h j = j

  pub Keeps-maybe :
      {B : Type 0} (o : Option B) (m : M W A) (f : B → M W A)
      → Keeps P m
      → ((b : B) → o ≡ some b → Keeps P (f b))
      → Keeps P (maybe o m f)
  unfolding maybe
  Keeps-maybe none m f h j = h
  Keeps-maybe (some b) m f h j = j b refl

module _ {W A B : Type 0} {P : W → Type 0} where
  pub Keeps-bind :
      (m : M W A) (f : A → M W B) → Keeps P m → ((a : A) → Keeps P (f a)) → Keeps P (m >>= f)
  unfolding ◌>>=◌
  Keeps-bind m f h j = record { at = λ c p. (j (m c).0).at (m c).1 (h.at c p) }

module _ {W : Type 0} {P : W → Type 0} where
  pub Keeps-regs : Keeps P regs
  unfolding regs
  Keeps-regs = record { at = λ c h. h }

  pub Keeps-variant : Keeps P variant
  unfolding variant
  Keeps-variant = record { at = λ c h. h }

  pub Keeps-on_regs : (f : Regs → Regs) → Keeps P (on_regs f)
  unfolding on_regs
  Keeps-on_regs f = record { at = λ c h. h }

  pub Keeps-on_lines : (f : Lines → Lines) → Keeps P (on_lines f)
  unfolding on_lines
  Keeps-on_lines f = record { at = λ c h. h }

  pub Keeps-on_latches : (f : Latches → Latches) → Keeps P (on_latches f)
  unfolding on_latches
  Keeps-on_latches f = record { at = λ c h. h }

  pub Keeps-add_cycles : (n : ℕ) → Keeps P (add_cycles n)
  unfolding add_cycles
  Keeps-add_cycles n = record { at = λ c h. h }

  pub Keeps-add_master_clock : (n : ℕ) → Keeps P (add_master_clock n)
  unfolding add_master_clock
  Keeps-add_master_clock n = record { at = λ c h. h }

  pub Keeps-instr_cycle : Keeps P instr_cycle
  unfolding instr_cycle
  Keeps-instr_cycle = record { at = λ c h. h }

  pub Keeps-extra_cycle : Keeps P extra_cycle
  unfolding extra_cycle
  Keeps-extra_cycle = record { at = λ c h. h }

  pub Keeps-set_halted : (b : Bool) → Keeps P (set_halted b)
  unfolding set_halted
  Keeps-set_halted b = record { at = λ c h. h }

  pub Keeps-set_stopped_by_stp : (b : Bool) → Keeps P (set_stopped_by_stp b)
  unfolding set_stopped_by_stp
  Keeps-set_stopped_by_stp b = record { at = λ c h. h }

  pub Keeps-sample_nmi : Keeps P sample_nmi
  unfolding sample_nmi
  Keeps-sample_nmi = record { at = λ c h. h }

  pub Keeps-on_env :
      (f : Env W → Env W) → ((e : Env W) → P e.world → P (f e).world) → Keeps P (on_env f)
  unfolding on_env
  Keeps-on_env f h = record { at = λ c p. h c.env p }

  pub Keeps-ask_byte :
      (f : Env W → ℕ × Env W) → ((e : Env W) → P e.world → P (f e).1.world) → Keeps P (ask_byte f)
  unfolding ask_byte
  Keeps-ask_byte f h = record { at = λ c p. h c.env p }

  pub Keeps-ask_addr :
      (f : Env W → ℕ × Env W) → ((e : Env W) → P e.world → P (f e).1.world) → Keeps P (ask_addr f)
  unfolding ask_addr
  Keeps-ask_addr f h = record { at = λ c p. h c.env p }

pub ruleset keeps_rules = (
  Keeps-pure, Keeps-gets, Keeps-if, Keeps-bind, Keeps-regs, Keeps-variant, Keeps-on_regs,
  Keeps-on_lines, Keeps-on_latches, Keeps-add_cycles, Keeps-add_master_clock, Keeps-instr_cycle,
  Keeps-extra_cycle, Keeps-set_halted, Keeps-set_stopped_by_stp, Keeps-sample_nmi,
)
