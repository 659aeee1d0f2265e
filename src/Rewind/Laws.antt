-- ===== src/Rewind/Laws.antt =====
-- The reverse of a step, or of any number of steps under one snapshot.
use chippy.Prelude.{ℕ, zero, suc, ◌<◌, ◌≡◌, ◌∙◌, refl, Option, some, List, arith}
use chippy.Cpu.State.{M, Cpu}
use chippy.Cpu.Step.{step}
use chippy.Cpu.World.Keeps.{Preserves, Keeps}
use chippy.Cpu.World.Step.{step-Keeps}
use chippy.Memory.{Ram, Pages, reset_shadow, take_shadow, ram_bus}
use chippy.Memory.Undo.{IsUndoable, restored, write-IsUndoable, reset_shadow-IsUndoable}
use chippy.Rewind.{snapshot, copy_pages, restore, step_with_snapshot, repeat}

ram_bus-Preserves : (orig : ℕ → ℕ) (frozen : List ℕ) → Preserves (IsUndoable orig frozen) ram_bus
unfolding ram_bus
ram_bus-Preserves orig frozen = record {
  read = λ addr e h. h;
  write = λ addr v e h. write-IsUndoable orig frozen e.world _ v (omega arith) h;
  tick = λ f e. cc;
  read_dma = λ f e. cc;
  access = λ f e. cc;
  run_ppu = λ f e. cc;
  read_address = λ f e. cc;
  set_buffer = λ f e. cc;
}

repeat-Keeps :
    {A : Type 0} {P : Ram → Type 0} (n : ℕ) (m : M Ram A) (c : Cpu Ram)
    → Keeps P m
    → P c.env.world
    → P (repeat n m c).env.world
unfolding repeat
repeat-Keeps zero m c k h = h
repeat-Keeps (suc n) m c k h = repeat-Keeps n m (m c).1 k (k.at c h)

copy_pages-restored :
    (shadow : Option Pages) (pages : Pages) (bytes : ℕ → ℕ) (a : ℕ)
    → shadow ≡ some pages
    → copy_pages shadow bytes a ≡ restored pages bytes a
unfolding copy_pages restored
copy_pages-restored shadow pages bytes a e = rw e

-- What Restore brings back of `c`.
pub record IsBackAt (c d : Cpu Ram) : Type 0 where
  pub regs : d.regs ≡ c.regs
  pub cycles : d.clock.cycles ≡ c.clock.cycles
  pub extra_cycles : d.clock.extra_cycles ≡ c.clock.extra_cycles
  pub halted : d.halted ≡ c.halted
  pub irq_line : d.env.lines.irq_line ≡ c.env.lines.irq_line
  pub nmi_pending : d.env.lines.nmi_pending ≡ c.env.lines.nmi_pending
  pub bytes : (a : ℕ) → a < 65536 → d.env.world.bytes a ≡ c.env.world.bytes a
  pub frozen : d.env.world.frozen ≡ c.env.world.frozen

-- With the shadow on, `n` steps under one snapshot and its Restore bring back the registers,
-- the cycle count, the extra cycles, the halt flag, the IRQ line, the pending NMI, the freeze set
-- and all 64 KiB of memory, whatever the program wrote.
pub step_back :
    (n : ℕ) (c : Cpu Ram) (pages : Pages)
    → c.env.world.shadow ≡ some pages
    → let r = step_with_snapshot (repeat n (step ram_bus)) c in IsBackAt c (restore r.0 r.1)
unfolding step_with_snapshot snapshot restore reset_shadow take_shadow
step_back n c pages on =
    let kept =
      repeat-Keeps n (step ram_bus)
        (record c { env = record (c.env) { world = reset_shadow c.env.world } })
        (step-Keeps ram_bus (ram_bus-Preserves c.env.world.bytes c.env.world.frozen))
        (reset_shadow-IsUndoable c.env.world pages on) in
    record {
      regs = refl;
      cycles = refl;
      extra_cycles = refl;
      halted = refl;
      irq_line = refl;
      nmi_pending = refl;
      bytes = λ a lt. copy_pages-restored _ kept.pages _ a kept.shadowed ∙ kept.undoes a lt;
      frozen = kept.held;
    }
