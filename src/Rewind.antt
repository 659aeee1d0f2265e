-- ===== src/Rewind.antt =====
-- Reverse step: cpu/snapshot.go, and the capture around a step of dap/steps.go.
pub mod Laws
pub mod Stuck
pub mod Ring
use chippy.Prelude.{ℕ, zero, suc, Bool, true, false, Option, none, some, u8, hi_byte}
use chippy.Cpu.State.{M, Cpu, Regs, Lines, Env, Clock, ◌>>=◌}
use chippy.Memory.{Ram, Pages, Image, reset_shadow, take_shadow}

-- `Peripherals` is nil: the RAM is the only device.
pub record Snapshot : Type 0 where
  pub regs : Regs
  pub cycles : ℕ
  pub halted : Bool
  pub extra_cycles : ℕ
  pub irq_line : Bool
  pub nmi_pending : Bool
  pub pages : Option Pages

unfoldable pub snapshot : Cpu Ram → Snapshot
snapshot c = record {
  regs = c.regs;
  cycles = c.clock.cycles;
  halted = c.halted;
  extra_cycles = c.clock.extra_cycles;
  irq_line = c.env.lines.irq_line;
  nmi_pending = c.env.lines.nmi_pending;
  pages = none;
}

-- `copy(ram.Data[base:base+256], img[:])` for every page. Pages do not overlap, so that the
-- order of the map's iteration does not matter.
unfoldable pub copy_pages : Option Pages → (ℕ → ℕ) → ℕ → ℕ
copy_pages none bytes a = bytes a
copy_pages (some pages) bytes a = elim (pages (hi_byte a)) [
  | none ↦ bytes a
  | some img ↦ img (u8 a)
]

unfoldable pub restore : Snapshot → Cpu Ram → Cpu Ram
unfolding copy_pages
restore s c = record c {
  regs = s.regs;
  clock = record (c.clock) { cycles = s.cycles; extra_cycles = s.extra_cycles };
  halted = s.halted;
  env = record {
    lines = record (c.env.lines) { irq_line = s.irq_line; nmi_pending = s.nmi_pending };
    world = reset_shadow (record (c.env.world) { bytes = copy_pages s.pages c.env.world.bytes });
  };
}

-- stepWithSnapshot, up to the push: the snapshot with the pages of the body's writes.
unfoldable pub step_with_snapshot : (Cpu Ram → Cpu Ram) → Cpu Ram → Snapshot × Cpu Ram
step_with_snapshot body c =
    let snap = snapshot c in
    let fresh = record c { env = record (c.env) { world = reset_shadow c.env.world } } in
    let after = body fresh in
    let (pages, ram) = take_shadow after.env.world in
    (record snap { pages = pages }, record after { env = record (after.env) { world = ram } })

-- A body of `n` actions.
unfoldable pub repeat : {A : Type 0} → ℕ → M Ram A → Cpu Ram → Cpu Ram
repeat zero m c = c
repeat (suc n) m c = repeat n m (m c).1
