-- ===== src/W65816/Counted/Step.antt =====
-- step816 returns as many cycles as it makes bus accesses.
use chippy.Prelude.{
  ℕ, ◌+◌, ◌-◌, ◌%◌, ◌<◌, ◌≤◌, ◌≡◌, ◌∙◌, sym, refl, Bool, true, false, ◌||◌, ◌==◌, Option, none,
  some, List, [], ◌∷◌, ap, arith, if◌then◌else◌, if-elim, each_below, each_below_at, subst,
}
use chippy.Cpu.State.{Env}
use chippy.W65816.State.{Bus24, Cpu, M, ◌>>=◌, pure, regs, on_regs, on_pins, add_cycles}
use chippy.W65816.Access.{banked, fetch816, read24}
use chippy.W65816.Cases.{
  Case, regular_cases, stop_cases, alu_cases, flag_cases, count_cases, transfer_cases,
  immediate_cases, mode_cases, index_cases, store_zero_cases, compare_cases, memory_cases,
  acc_cases, rmw_cases, test_cases, stack_cases, jump_cases, branch_cases, interrupt_cases,
  ora_cases, and_cases, eor_cases, adc_cases, sta_cases, lda_cases, cmp_cases, sbc_cases,
}
use chippy.W65816.Step.{find_case, all_cases, start_pins, finish, run_case, step816}
use chippy.W65816.Counted.Rules.{CountsOn, Same-refl}
use chippy.W65816.Counted.Kernels.{CasePays}
use chippy.W65816.Counted.Cases.{AllPay, regular_cases-AllPay}

is_some {ℓ} : {A : Type ℓ} → Option A → Bool
is_some none = false
is_some (some a) = true

-- WAI, STP, MVN and MVP.
abbrev pub stops : ℕ → Bool
stops op = op == 0xCB || op == 0xDB || op == 0x54 || op == 0x44

-- The opcode that the next instruction fetches.
abbrev pub next_opcode : {W : Type 0} → Bus24 W → Cpu W → ℕ
next_opcode bus c = (bus.read24 (banked c.regs.pbr c.regs.pc % 0x1000000) c.env).0

module _ {W : Type 0} (bus : Bus24 W) where
  has_case : ℕ → Bool
  has_case op = stops op || is_some (find_case op (regular_cases bus))

  has_cases : each_below 256 has_case ≡ true
  unfolding each_below has_case is_some find_case regular_cases alu_cases flag_cases count_cases
      transfer_cases immediate_cases mode_cases index_cases store_zero_cases compare_cases
      memory_cases acc_cases rmw_cases test_cases stack_cases jump_cases branch_cases
      interrupt_cases ora_cases and_cases eor_cases adc_cases sta_cases lda_cases cmp_cases
      sbc_cases
  has_cases = refl

module _ {W : Type 0} {count : Env W → ℕ} (bus : Bus24 W) (counted : CountsOn bus count) where
  FoundPays : Option (M W ℕ) → Type 0
  FoundPays none = Unit
  FoundPays (some body) = CasePays bus counted body

  find_case-FoundPays :
      (op : ℕ) (l : List (Case W)) → AllPay bus counted l → FoundPays (find_case op l)
  unfolding find_case FoundPays
  find_case-FoundPays op [] h = tt
  find_case-FoundPays op ((code, body) ∷ rest) h =
      if-elim FoundPays (code == op) (some body) (find_case op rest) (λ _. h.0)
        (λ _. find_case-FoundPays op rest h.1)

  -- From the state behind the opcode fetch on.
  run_case-pays :
      (found : Option (M W ℕ)) (start n : ℕ) (c : Cpu W)
      → FoundPays found
      → is_some found ≡ true
      → count c.env ≡ n + 1
      → let d = run_case found start c in (d.0 ≡ some (count d.1.env - n)) × (n ≤ count d.1.env)
  unfolding FoundPays is_some run_case finish ◌>>=◌ pure regs add_cycles
  run_case-pays none start n c h e first = absurd (ground arith)
  run_case-pays (some body) start n c h e first =
      let paid = (h c.regs).at c (Same-refl c.regs) in
      (ap some (omega (arith, first, paid)), omega (arith, first, paid))

  pub skip_case :
      (rest : Option (M W ℕ)) (op code : ℕ) (body : M W ℕ) (left : Option (M W ℕ))
      → (code == op) ≡ false
      → left ≡ rest
      → (if code == op then some body else left) ≡ rest
  skip_case rest op code body left h e =
      if-elim (λ o. o ≡ rest) (code == op) (some body) left (λ t. absurd (ground arith)) (λ _. e)

  -- The opcode has a case, and a later one than those of the four.
  all_cases-regular :
      (op : ℕ) → stops op ≡ false → find_case op (all_cases bus) ≡ find_case op (regular_cases bus)
  unfolding find_case all_cases stop_cases
  all_cases-regular op h =
      let skip = skip_case (find_case op (regular_cases bus)) op in
      skip 0xCB _ _ (ground (arith, h)) (
        skip 0xDB _ _ (ground (arith, h))
          (skip 0x54 _ _ (ground (arith, h)) (skip 0x44 _ _ (ground (arith, h)) refl)))

  regular-has_case :
      (op : ℕ) → op < 256 → stops op ≡ false → is_some (find_case op (regular_cases bus)) ≡ true
  unfolding has_case
  regular-has_case op lt h =
      let t : has_case bus op ≡ true = each_below_at 256 (has_case bus) op (has_cases bus) lt in
      ground (arith, h, t)

  -- On a bus that counts its accesses, an instruction other than WAI, STP, MVN and MVP does not
  -- panic and returns the number of accesses that it made.
  pub step816-counts :
      (c : Cpu W)
      → next_opcode bus c < 256
      → stops (next_opcode bus c) ≡ false
      → let d = step816 bus c in
        (d.0 ≡ some (count d.1.env - count c.env)) × (count c.env ≤ count d.1.env)
  unfolding step816 start_pins ◌>>=◌ regs on_pins fetch816 read24 pure on_regs
  step816-counts c lt h =
      let op = next_opcode bus c in
      let found = find_case op (all_cases bus) in
      let e : found ≡ find_case op (regular_cases bus) = all_cases-regular op h in
      run_case-pays found c.regs.pc (count c.env) _
        (subst FoundPays (sym e) (find_case-FoundPays op _ (regular_cases-AllPay bus counted)))
        (ap is_some e ∙ regular-has_case op lt h) (counted.read _ c.env)
