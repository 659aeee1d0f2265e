-- ===== src/W65816/Locked/Step.antt =====
-- Every step but a block move keeps the locked registers, from Reset on.
use chippy.Prelude.{
  ℕ, ◌+◌, ◌≡◌, refl, Bool, true, false, not, ◌&&◌, ◌||◌, ◌==◌, Option, none, some, List, [], ◌∷◌,
  subst, if-elim, arith, digit, sym, u16,
}
use chippy.Cpu.State.{Bus}
use chippy.Cpu.Flags.{flag_i}
use chippy.W65816.State.{
  Bus24, Regs, Cpu, M, ◌>>=◌, pure, regs, on_regs, on_pins, set_halted, set_abort_pending,
  add_cycles,
}
use chippy.W65816.Width.{has_flag}
use chippy.W65816.Control.{service_interrupt816}
use chippy.W65816.Access.{fetch816, read24}
use chippy.W65816.Cases.{Case, stop_cases}
use chippy.W65816.Step.{
  find_case, all_cases, start_pins, finish, run_case, step816, cycles, service, clear_nmi,
  clear_irq_due, wake_on_masked_irq, dispatch, step, reset, reset_regs, read_bus,
}
use chippy.W65816.Counted.Step.{next_opcode}
use chippy.W65816.Locked.Rules.{IsLocked, Kept-IsLocked, Leads, Leads-pure, Leads-chain, lead_rules}
use chippy.W65816.Locked.Access.{io816-Leads, pc-Calm, set_pc-Calm}
use chippy.W65816.Locked.Control.{op_wai-Locks, op_stp-Locks, enter-Locks}
use chippy.W65816.Locked.Cases.{AllLock, regular_cases-AllLock}

-- MVN and MVP.
abbrev pub moves : ℕ → Bool
moves op = op == 0x54 || op == 0x44

module _ {W : Type 0} (bus : Bus24 W) where
  still-Leads : (b : Bool) → Leads {W = W} true true (set_halted b)
  unfolding set_halted
  still-Leads b = record { at = λ c h. h }

  add_cycles-Leads : (n : ℕ) → Leads {W = W} true true (add_cycles n)
  unfolding add_cycles
  add_cycles-Leads n = record { at = λ c h. h }

  cycles-Leads : Leads {W = W} true true cycles
  unfolding cycles
  cycles-Leads = record { at = λ c h. h }

  abort-Leads : Leads {W = W} true true (set_abort_pending false)
  unfolding set_abort_pending
  abort-Leads = record { at = λ c h. h }

  nmi-Leads : Leads {W = W} true true clear_nmi
  unfolding clear_nmi
  nmi-Leads = record { at = λ c h. h }

  irq-Leads : Leads {W = W} true true clear_irq_due
  unfolding clear_irq_due
  irq-Leads = record { at = λ c h. h }

  FoundLocks : Option (M W ℕ) → Type 0
  FoundLocks none = Unit
  FoundLocks (some body) = Leads true true body

  find_case-FoundLocks : (op : ℕ) (l : List (Case W)) → AllLock bus l → FoundLocks (find_case op l)
  unfolding find_case FoundLocks
  find_case-FoundLocks op [] h = tt
  find_case-FoundLocks op ((code, body) ∷ rest) h =
      if-elim FoundLocks (code == op) (some body) (find_case op rest) (λ _. h.0)
        (λ _. find_case-FoundLocks op rest h.1)

  all_cases-FoundLocks : (op : ℕ) → moves op ≡ false → FoundLocks (find_case op (all_cases bus))
  unfolding find_case all_cases stop_cases FoundLocks
  all_cases-FoundLocks op h =
      if-elim FoundLocks (0xCB == op) _ _ (λ _. op_wai-Locks)
        λ _.
          if-elim FoundLocks (0xDB == op) _ _ (λ _. op_stp-Locks)
            λ _.
              if-elim FoundLocks (0x54 == op) _ _ (λ t. absurd (ground (arith, h, t)))
                λ _.
                  if-elim FoundLocks (0x44 == op) _ _ (λ t. absurd (ground (arith, h, t)))
                    λ _. find_case-FoundLocks op _ (regular_cases-AllLock bus)

  finish-Leads : (start cyc : ℕ) → Leads {W = W} true true (finish start cyc)
  unfolding finish ◌>>=◌ pure regs add_cycles
  finish-Leads start cyc = record { at = λ c h. h }

  run_case-Leads :
      (found : Option (M W ℕ)) (start : ℕ)
      → FoundLocks found
      → Leads true true (run_case found start)
  unfolding run_case FoundLocks
  run_case-Leads none start h = Leads-pure none
  run_case-Leads (some body) start h =
      Leads-chain _ _ h λ cyc. Leads-chain _ _ (finish-Leads start cyc) λ _. Leads-pure _

  step816-IsLocked :
      (c : Cpu W)
      → moves (next_opcode bus c) ≡ false
      → IsLocked true c.regs
      → IsLocked true (step816 bus c).1.regs
  unfolding step816 start_pins ◌>>=◌ regs on_pins fetch816 read24 pure on_regs
  step816-IsLocked c still h =
      let op = next_opcode bus c in
      (run_case-Leads (find_case op (all_cases bus)) c.regs.pc (all_cases-FoundLocks op still)).at _
        (Kept-IsLocked (pc-Calm (λ r. u16 (r.pc + 1)) c.regs) h)

  entry-Leads : (emu nat : ℕ) → Leads true true (service_interrupt816 bus emu nat)
  unfolding service_interrupt816
  entry-Leads emu nat = search (lead_rules, add_cycles-Leads, io816-Leads, enter-Locks) depth 30

  service-IsLocked :
      (clear : M W (Unit {0})) (emu nat : ℕ)
      → Leads true true clear
      → Leads true true (service bus clear emu nat)
  unfolding service
  service-IsLocked clear emu nat h = Leads-chain _ _ (still-Leads false) λ _. Leads-chain _ _ h λ _.
      Leads-chain _ _ cycles-Leads λ before.
        Leads-chain _ _ (entry-Leads emu nat)
          λ _. Leads-chain _ _ cycles-Leads λ after. Leads-pure _

  dispatch-IsLocked :
      (c : Cpu W)
      → moves (next_opcode bus c) ≡ false
      → IsLocked true c.regs
      → IsLocked true (dispatch bus c).1.regs
  unfolding dispatch
  dispatch-IsLocked c still h =
      let locked = λ (o : Option ℕ × Cpu W). IsLocked true o.1.regs in
      if-elim locked c.abort_pending _ _ (λ _. (service-IsLocked _ _ _ abort-Leads).at c h)
        λ _.
          if-elim locked c.env.nmi_pending _ _ (λ _. (service-IsLocked _ _ _ nmi-Leads).at c h)
            λ _.
              if-elim locked (c.env.irq_line && not (has_flag flag_i c.regs)) _ _
                (λ _. (service-IsLocked _ _ _ irq-Leads).at c h)
                λ _. if-elim locked c.halted _ _ (λ _. h) λ _. step816-IsLocked c still h

  -- Whether WAI wakes up or not, the registers are the same, and so is the next opcode.
  wake-same :
      (c : Cpu W)
      → ((wake_on_masked_irq c).regs ≡ c.regs)
        × (next_opcode bus (wake_on_masked_irq c) ≡ next_opcode bus c)
  unfolding wake_on_masked_irq
  wake-same c =
      if-elim (λ d. (d.regs ≡ c.regs) × (next_opcode bus d ≡ next_opcode bus c)) _
        (record c { halted = false }) c (λ _. (refl, refl)) (λ _. (refl, refl))

  -- A step whose next opcode is not that of a block move keeps the locked registers.
  pub step-IsLocked :
      (c : Cpu W)
      → moves (next_opcode bus c) ≡ false
      → IsLocked true c.regs
      → IsLocked true (step bus c).1.regs
  unfolding step
  step-IsLocked c still h =
      let (r, op) = wake-same c in
      if-elim (λ (o : Option ℕ × Cpu W). IsLocked true o.1.regs) c.stopped_by_stp _ _ (λ _. h)
        λ _.
          dispatch-IsLocked (wake_on_masked_irq c) (subst (λ op. moves op ≡ false) (sym op) still)
            (subst (IsLocked true) (sym r) h)

  reset_regs-IsLocked : (r : Regs) → IsLocked true (reset_regs r)
  unfolding reset_regs digit
  reset_regs-IsLocked r = record {
    page = λ t e. refl;
    m_set = λ e. refl;
    xh_clear = λ n. refl;
    yh_clear = λ n. refl;
  }

  -- What Reset leaves is locked.
  reset-IsLocked : (b : Bus W) (c : Cpu W) → IsLocked true (reset b c).1.regs
  unfolding reset ◌>>=◌ on_regs read_bus
  reset-IsLocked b c = Kept-IsLocked (set_pc-Calm _ _) (reset_regs-IsLocked c.regs)

  -- The machines that a run of steps reaches from Reset, with no block move at PBR:PC.
  pub data Reached (b : Bus W) : Cpu W → Type 0 where
    powered : (c : Cpu W) → Reached b (reset b c).1
    stepped :
        {c : Cpu W} → Reached b c → moves (next_opcode bus c) ≡ false → Reached b (step bus c).1

  -- On every machine that Reset and then steps lead to, none of them taken with MVN or MVP at
  -- PBR:PC: in emulation mode the bit M of the status is set and the stack is in page 1, and while
  -- the index registers are 8 bits wide their high bytes are 0.
  pub Reached-IsLocked : (b : Bus W) {c : Cpu W} → Reached b c → IsLocked true c.regs
  Reached-IsLocked b (powered c) = reset-IsLocked b c
  Reached-IsLocked b (stepped h still) = step-IsLocked _ still (Reached-IsLocked b h)
