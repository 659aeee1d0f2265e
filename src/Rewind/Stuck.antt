-- ===== src/Rewind/Stuck.antt =====
-- Restore after STP: the latch that only Reset clears is not part of a snapshot.
use chippy.Prelude.{ℕ, ◌≡◌, ap, true, if◌then◌else◌}
use chippy.Cpu.State.{Cpu}
use chippy.Cpu.Step.{ran, step, dispatch, wake_on_masked_irq}
use chippy.Memory.{Ram, ram_bus}
use chippy.Rewind.{restore, step_with_snapshot, repeat}

stuck : (c : Cpu Ram) → c.stopped_by_stp ≡ true → step ram_bus c ≡ (ran 0, c)
unfolding step
stuck c stopped =
    ap (λ b. if b then (ran 0, c) else dispatch ram_bus (wake_on_masked_irq ram_bus c)) stopped

-- When `n` steps under one snapshot ran into STP, the CPU that its Restore leaves runs nothing
-- any more: Step returns 0 and changes nothing.
pub step_back-stuck :
    (n : ℕ) (c : Cpu Ram)
    → let r = step_with_snapshot (repeat n (step ram_bus)) c in
      r.1.stopped_by_stp ≡ true → step ram_bus (restore r.0 r.1) ≡ (ran 0, restore r.0 r.1)
unfolding restore
step_back-stuck n c stopped =
    let r = step_with_snapshot (repeat n (step ram_bus)) c in stuck (restore r.0 r.1) stopped
