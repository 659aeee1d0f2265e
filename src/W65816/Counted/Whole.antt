-- ===== src/W65816/Counted/Whole.antt =====
-- Step on the 65816 returns as many cycles as it makes bus accesses, interrupts included.
use chippy.Prelude.{
  ℕ, ◌-◌, ◌^◌, ◌≤◌, ◌<◌, ◌≡◌, refl, ap, Bool, true, false, not, bit_or, and_not8, ◌&&◌, ◌||◌,
  if◌then◌else◌, Option, some, if-elim, arith,
}
use chippy.Cpu.State.{Env}
use chippy.Cpu.Flags.{flag_i, flag_u, flag_b}
use chippy.W65816.State.{
  Bus24, Regs, Cpu, M, ◌>>=◌, ◌>>◌, pure, regs, on_regs, on_pins, set_halted, set_abort_pending,
  add_cycles,
}
use chippy.W65816.Width.{has_flag}
use chippy.W65816.Access.{
  pin_vector, set_pins, read24, write24, io816, pin_none, write_data, pin_data,
}
use chippy.W65816.Stack.{sp_push8, sp_push16}
use chippy.W65816.Control.{push_state, enter, service_interrupt816}
use chippy.W65816.Step.{
  cycles, service, clear_nmi, clear_irq_due, wake_on_masked_irq, dispatch, step, step816,
}
use chippy.W65816.Counted.Rules.{CountsOn, Same-refl, Pays, Pays-bind}
use chippy.W65816.Counted.Access.{io816-Spends}
use chippy.W65816.Counted.Control.{enter-Pays}
use chippy.W65816.Counted.Step.{next_opcode, stops, step816-counts}

module _ {W : Type 0} (bus : Bus24 W) where
  -- A push of the state takes a few cycles, which it does not count in Cycles.
  push_state-few :
      (emu : Regs → ℕ) (e : Bool) (c : Cpu W)
      → ((push_state bus emu e c).1.cycles ≡ c.cycles) × ((push_state bus emu e c).0 < 9)
  unfolding push_state ◌>>=◌ regs pure sp_push16 sp_push8 write_data write24 pin_data on_pins
      on_regs
  push_state-few emu true c = (refl, omega arith)
  push_state-few emu false c = (refl, omega arith)

  enter-few :
      (emu : Regs → ℕ) (vec_emu vec_nat : ℕ) (c : Cpu W)
      → ((enter bus emu vec_emu vec_nat c).1.cycles ≡ c.cycles)
        × ((enter bus emu vec_emu vec_nat c).0 < 9)
  unfolding enter ◌>>=◌ regs pure on_regs pin_vector set_pins on_pins read24
  enter-few emu vec_emu vec_nat c = push_state-few emu c.regs.e c

  -- The entry before `c.Cycles` is advanced.
  abbrev entry : ℕ → ℕ → M W ℕ
  entry vec_emu vec_nat = do
    io816 bus
    io816 bus
    enter bus (λ r. and_not8 (bit_or r.p flag_u) flag_b) vec_emu vec_nat

  entry-few :
      (vec_emu vec_nat : ℕ) (c : Cpu W)
      → ((entry vec_emu vec_nat c).1.cycles ≡ c.cycles) × ((entry vec_emu vec_nat c).0 < 9)
  unfolding ◌>>=◌ io816 read24 pin_none regs on_pins pure
  entry-few vec_emu vec_nat c = enter-few _ vec_emu vec_nat _

module _ {W : Type 0} {count : Env W → ℕ} (bus : Bus24 W) (counted : CountsOn bus count) where
  -- What a step does to the count, from the environment before.
  abbrev Counted : Env W → Option ℕ × Cpu W → Type 0
  Counted env d = (d.0 ≡ some (count d.1.env - count env)) × (count env ≤ count d.1.env)

  entry-Pays :
      (vec_emu vec_nat : ℕ) (v : Regs) → Pays count v 0 (λ n. n) (entry bus vec_emu vec_nat)
  entry-Pays vec_emu vec_nat v =
      Pays-bind (io816-Spends bus counted)
        λ _. Pays-bind (io816-Spends bus counted) λ _. enter-Pays bus counted _ vec_emu vec_nat

  service-Counted :
      (clear : M W (Unit {0})) (vec_emu vec_nat : ℕ) (c : Cpu W)
      → c.cycles < 2 ^ 64
      → (clear (record c { halted = false })).1.cycles ≡ c.cycles
      → count (clear (record c { halted = false })).1.env ≡ count c.env
      → Counted c.env (service bus clear vec_emu vec_nat c)
  unfolding service service_interrupt816 ◌>>=◌ pure set_halted cycles add_cycles
  service-Counted clear vec_emu vec_nat c lt same still =
      let c1 : Cpu W = (clear (record c { halted = false })).1 in
      let few = entry-few bus vec_emu vec_nat c1 in
      let paid = (entry-Pays vec_emu vec_nat c1.regs).at c1 (Same-refl c1.regs) in
      (ap some (omega (arith, lt, same, still, few, paid)), omega (arith, still, paid))

-- Step goes to the instruction at PBR:PC: nothing is served, and STP and WAI do not hold it.
unfoldable pub runs : {W : Type 0} → Cpu W → Bool
runs c =
    not (c.stopped_by_stp || c.abort_pending || c.env.nmi_pending)
    && (if c.env.irq_line then has_flag flag_i c.regs else not c.halted)

-- The count is kept by the devices: it does not depend on the interrupt lines.
module _ {W : Type 0} (accesses : W → ℕ) (bus : Bus24 W)
    (counted : CountsOn bus (λ e. accesses e.world)) where
  -- The opcode at PBR:PC is a byte, and not WAI, STP, MVN or MVP.
  abbrev IsCounted : Cpu W → Type 0
  IsCounted c = (next_opcode bus c < 256) × (stops (next_opcode bus c) ≡ false)

  dispatch-Counted :
      (c : Cpu W)
      → c.cycles < 2 ^ 64
      → ((c.abort_pending || c.env.nmi_pending) ≡ false
          → (c.env.irq_line && not (has_flag flag_i c.regs)) ≡ false
          → c.halted ≡ false
          → IsCounted c)
      → Counted bus counted c.env (dispatch bus c)
  unfolding dispatch clear_nmi clear_irq_due set_abort_pending
  dispatch-Counted c lt regular =
      let paid = Counted bus counted c.env in
      if-elim paid c.abort_pending _ _ (λ _. service-Counted bus counted _ _ _ c lt refl refl)
        λ no_abort.
          if-elim paid c.env.nmi_pending _ _ (λ _. service-Counted bus counted _ _ _ c lt refl refl)
            λ no_nmi.
              if-elim paid (c.env.irq_line && not (has_flag flag_i c.regs)) _ _
                (λ _. service-Counted bus counted _ _ _ c lt refl refl)
                λ no_irq.
                  if-elim paid c.halted (some 0, c) (step816 bus c)
                    (λ _. (ap some (omega arith), omega arith))
                    λ awake.
                      let h = regular (ground (arith, no_abort, no_nmi)) no_irq awake in
                      step816-counts bus counted c h.0 h.1

  wake-Counted :
      (c : Cpu W)
      → c.cycles < 2 ^ 64
      → c.stopped_by_stp ≡ false
      → (runs c ≡ true → IsCounted c)
      → Counted bus counted c.env (dispatch bus (wake_on_masked_irq c))
  unfolding wake_on_masked_irq runs
  wake-Counted c lt going regular =
      if-elim (λ d. Counted bus counted c.env (dispatch bus d)) _ (record c { halted = false }) c
        (λ woken.
          dispatch-Counted (record c { halted = false }) lt
            λ none no_irq awake. regular (ground (arith, going, woken, none, no_irq)))
        (λ asleep.
          dispatch-Counted c lt
            λ none no_irq awake. regular (ground (arith, going, asleep, none, no_irq, awake)))

  -- On a bus whose devices count its accesses, a step of the 65816 does not panic and returns as
  -- many cycles as it made accesses: where it serves ABORT, NMI or IRQ, or is held by STP or WAI,
  -- whatever the opcode at PBR:PC, and where it runs an instruction, provided that its opcode is a
  -- byte and none of WAI, STP, MVN and MVP. The cycle counter is a uint64.
  pub step-counts :
      (c : Cpu W)
      → c.cycles < 2 ^ 64
      → (runs c ≡ true → (next_opcode bus c < 256) × (stops (next_opcode bus c) ≡ false))
      → let d = step bus c in
        (d.0 ≡ some (accesses d.1.env.world - accesses c.env.world))
        × (accesses c.env.world ≤ accesses d.1.env.world)
  unfolding step
  step-counts c lt regular =
      if-elim (Counted bus counted c.env) c.stopped_by_stp (some 0, c) _
        (λ _. (ap some (omega arith), omega arith)) (λ going. wake-Counted c lt going regular)
