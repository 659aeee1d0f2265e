-- ===== src/W65816/Step.antt =====
-- step816 (cpu/exec816.go), and Step (cpu/exec.go) on VariantW65816.
use chippy.Prelude.{
  ℕ, ◌+◌, true, false, not, ◌&&◌, ◌||◌, ◌^◌, ◌-◌, u64, Option, none, some, List, [], ◌∷◌, ◌++◌,
  nonzero, bit_and, bit_or, word, ◌==◌, if◌then◌else◌,
}
use chippy.Cpu.Flags.{flag_i, flag_u}
use chippy.Cpu.State.{Bus}
use chippy.W65816.State.{
  Bus24, Regs, Cpu, M, ◌>>=◌, ◌>>◌, pure, regs, on_regs, on_pins, set_halted, set_abort_pending,
  add_cycles,
}
use chippy.W65816.Width.{flag_m, flag_x, has_flag}
use chippy.W65816.Access.{fetch816}
use chippy.W65816.Control.{set_pc, service_interrupt816}
use chippy.W65816.Cases.{Case, regular_cases, stop_cases}

-- The body of the case of an opcode, if the switch has one.
unfoldable pub find_case {ℓ} : {A : Type ℓ} → ℕ → List (ℕ × A) → Option A
find_case op [] = none
find_case op ((code, body) ∷ rest) =
    let found = find_case op rest in if code == op then some body else found

-- The last four cases stand first: no opcode has two cases.
unfoldable pub all_cases : {W : Type 0} → Bus24 W → List (Case W)
unfolding regular_cases stop_cases
all_cases bus = stop_cases bus ++ regular_cases bus

-- The registers that Reset sets on VariantW65816, but PC.
unfoldable pub reset_regs : Regs → Regs
reset_regs r = record r {
  a = 0;
  b = 0;
  x = 0;
  xh = 0;
  y = 0;
  yh = 0;
  sp = 0xFD;
  sp_hi = 1;
  p = bit_or flag_u flag_i;
  d = 0;
  dbr = 0;
  pbr = 0;
  e = true;
}

module _ {W : Type 0} where
  unfoldable pub cycles : M W ℕ
  cycles c = (c.cycles, c)

  -- `c.nmiDue = false; c.nmiPending = false`
  unfoldable pub clear_nmi : M W (Unit {0})
  clear_nmi c = (
    tt,
    record c {
      nmi_due = false;
      env = record (c.env) { lines = record (c.env.lines) { nmi_pending = false } };
    },
  )

  unfoldable pub clear_irq_due : M W (Unit {0})
  clear_irq_due c = (tt, record c { irq_due = false })

  -- The status pins at the start of an instruction.
  unfoldable pub start_pins : M W (Unit {0})
  start_pins = do
    r ← regs
    on_pins λ p. record p {
      bus_e = r.e;
      bus_m = r.e || nonzero (bit_and r.p flag_m);
      bus_x = r.e || nonzero (bit_and r.p flag_x);
      opcode_fetch = true;
    }

  -- The end of an instruction: the self-jump heuristic and the cycle count.
  unfoldable pub finish : ℕ → ℕ → M W ℕ
  finish start_pc cyc = do
    r ← regs
    (λ c. (tt, record c { halted = c.halted || r.pc == start_pc }))
    add_cycles cyc
    pure cyc

  -- WAI wakes up on a masked IRQ.
  unfoldable pub wake_on_masked_irq : Cpu W → Cpu W
  wake_on_masked_irq c =
      if c.halted && c.env.irq_line && has_flag flag_i c.regs && not c.env.nmi_pending
      then record c { halted = false }
      else c

  -- `none` is the panic on an opcode with no case.
  unfoldable pub run_case : Option (M W ℕ) → ℕ → M W (Option ℕ)
  run_case none start_pc = pure none
  run_case (some body) start_pc = do cyc ← body; cyc ← finish start_pc cyc; pure (some cyc)

  unfoldable pub read_bus : Bus W → ℕ → M W ℕ
  read_bus b addr c = let (v, env) = b.read addr c.env in (v, record c { env = env })

  -- Reset reads its vector on the 16-bit bus.
  unfoldable pub reset : Bus W → M W (Unit {0})
  reset b = do
    on_regs reset_regs
    lo ← read_bus b 0xFFFC
    hi ← read_bus b 0xFFFD
    on_regs (set_pc (word lo hi))
    (λ c. (tt, record c { cycles = 7; halted = false; stopped_by_stp = false }))

module _ {W : Type 0} (bus : Bus24 W) where
  unfoldable pub step816 : M W (Option ℕ)
  unfolding find_case all_cases
  step816 = do start_pins; r ← regs; op ← fetch816 bus; run_case (find_case op (all_cases bus)) r.pc

  -- An interrupt entry, with `int(c.Cycles - before)`.
  unfoldable pub service : M W (Unit {0}) → ℕ → ℕ → M W (Option ℕ)
  service clear vec_emu vec_nat = do
    set_halted false
    clear
    before ← cycles
    _ ← service_interrupt816 bus vec_emu vec_nat
    after ← cycles
    pure (some (u64 (after + 2 ^ 64 - before)))

  unfoldable pub dispatch : Cpu W → Option ℕ × Cpu W
  dispatch c =
      if c.abort_pending
      then service (set_abort_pending false) 0xFFF8 0xFFE8 c
      else if c.env.nmi_pending
      then service clear_nmi 0xFFFA 0xFFEA c
      else if c.env.irq_line && not (has_flag flag_i c.regs)
      then service clear_irq_due 0xFFFE 0xFFEE c
      else if c.halted
      then (some 0, c)
      else step816 c

  unfoldable pub step : M W (Option ℕ)
  step c = if c.stopped_by_stp then (some 0, c) else dispatch (wake_on_masked_irq c)
