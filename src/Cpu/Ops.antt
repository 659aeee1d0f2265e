-- ===== src/Cpu/Ops.antt =====
-- The documented instructions: the handlers of cpu/exec.go.
use chippy.Prelude.{
  ℕ, ◌+◌, ◌*◌, Bool, true, false, not, ◌&&◌, ◌==◌, u8, u16, word, nonzero, and_not8, bit_and,
  bit_or, if◌then◌else◌,
}
use chippy.Cpu.State.{M, Bus, Regs, Variant, nes}
use chippy.Cpu.State.{
  ◌>>=◌, ◌>>◌, pure, gets, regs, variant, on_regs, on_lines, on_latches, extra_cycle, set_halted,
  set_stopped_by_stp,
}
use chippy.Cpu.Flags.{
  flag_c, flag_z, flag_i, flag_d, flag_b, flag_u, flag_v, flag_n, set_flag, has_flag, set_zn,
}
use chippy.Cpu.Alu.{
  carry_in, add_binary, sub_binary, adc_decimal, sbc_decimal, adc_decimal_cmos, sbc_decimal_cmos,
}
use chippy.Cpu.Access.{read, write, idle, push, pop, push16, pop16}
use chippy.Cpu.Addressing.{AddrMode, imp, acc, is_cmos, page_differs, bump_pc}

abbrev pub is_nes : Variant → Bool
is_nes nes = true
is_nes _ = false

abbrev pub is_acc : AddrMode → Bool
is_acc acc = true
is_acc _ = false

abbrev pub is_operandless : AddrMode → Bool
is_operandless imp = true
is_operandless acc = true
is_operandless _ = false

abbrev pub vec_nmi : ℕ
vec_nmi = 0xFFFA

abbrev pub vec_irq : ℕ
vec_irq = 0xFFFE

-- `c.A = v; c.setZN(c.A)` and its like for the other registers.
unfoldable pub put_a : ℕ → Regs → Regs
unfolding set_zn
put_a v r = set_zn v (record r { a = v })

unfoldable pub put_x : ℕ → Regs → Regs
unfolding set_zn
put_x v r = set_zn v (record r { x = v })

unfoldable pub put_y : ℕ → Regs → Regs
unfolding set_zn
put_y v r = set_zn v (record r { y = v })

-- `(v &^ FlagB) | FlagU`: the status byte that a pull takes from the stack.
unfoldable pub pulled_status : ℕ → ℕ
unfolding and_not8
pulled_status v = bit_or (and_not8 v flag_b) flag_u

-- `P | FlagB | FlagU`: the status byte that PHP and BRK push.
unfoldable pub pushed_status : ℕ → ℕ
pushed_status p = bit_or (bit_or p flag_b) flag_u

-- The flags of BIT.
unfoldable pub bit_flags : ℕ → Regs → Regs
unfolding set_flag
bit_flags v r =
    set_flag flag_v (nonzero (bit_and v 0x40))
      (set_flag flag_n (nonzero (bit_and v 0x80)) (set_flag flag_z (bit_and r.a v == 0) r))

module _ {W : Type 0} (bus : Bus W) where
  unfoldable pub load : ℕ → AddrMode → M W ℕ
  load addr m = if is_acc m then (do r ← regs; pure r.a) else read bus addr

  unfoldable pub store : ℕ → AddrMode → ℕ → M W (Unit {0})
  store addr m v = if is_acc m then on_regs (λ r. record r { a = v }) else write bus addr v

  unfoldable pub rmw_dummy : ℕ → AddrMode → ℕ → M W (Unit {0})
  rmw_dummy addr m old =
      if is_acc m
      then pure tt
      else (do v ← variant; if is_cmos v then (do read bus addr; pure tt) else write bus addr old)

  -- LDA, LDX, LDY, AND, EOR, ORA, BIT, CMP, CPX, CPY: one read, then registers.
  unfoldable pub op_read : (ℕ → Regs → Regs) → ℕ → M W (Unit {0})
  op_read f addr = do v ← read bus addr; on_regs (f v)

  -- STA, STX, STY
  unfoldable pub op_store : (Regs → ℕ) → ℕ → M W (Unit {0})
  op_store source addr = do r ← regs; write bus addr (source r)

  unfoldable pub op_pha : M W (Unit {0})
  op_pha = do r ← regs; idle bus r.pc; r ← regs; push bus r.a

  unfoldable pub op_php : M W (Unit {0})
  op_php = do r ← regs; idle bus r.pc; r ← regs; push bus (pushed_status r.p)

  -- The two internal cycles before a pull.
  unfoldable pub pull_idles : M W (Unit {0})
  pull_idles = do r ← regs; idle bus r.pc; r ← regs; idle bus (bit_or 0x100 r.sp)

  unfoldable pub op_pla : M W (Unit {0})
  op_pla = do pull_idles; v ← pop bus; on_regs (put_a v)

  unfoldable pub op_plp : M W (Unit {0})
  op_plp = do pull_idles; v ← pop bus; on_regs (λ r. record r { p = pulled_status v })

  unfoldable pub op_adc : ℕ → M W (Unit {0})
  op_adc addr = do
    v ← read bus addr
    r ← regs
    k ← variant
    if has_flag flag_d r && not (is_nes k)
        then (if is_cmos k
            then (do on_regs (adc_decimal_cmos v (carry_in r)); extra_cycle)
            else on_regs (adc_decimal v (carry_in r)))
        else on_regs (add_binary v (carry_in r))

  unfoldable pub op_sbc : ℕ → M W (Unit {0})
  op_sbc addr = do
    v ← read bus addr
    r ← regs
    k ← variant
    if has_flag flag_d r && not (is_nes k)
        then (if is_cmos k
            then (do on_regs (sbc_decimal_cmos v (carry_in r)); extra_cycle)
            else on_regs (sbc_decimal v (carry_in r)))
        else on_regs (sub_binary v (carry_in r))

  -- INC and DEC, by the byte added.
  unfoldable pub op_step_memory : ℕ → ℕ → AddrMode → M W (Unit {0})
  op_step_memory by addr m = do
    old ← read bus addr
    rmw_dummy addr m old
    let v = u8 (old + by)
    write bus addr v
    on_regs (set_zn v)

  -- ASL, LSR, ROL, ROR: the bit that goes to the carry, and the byte that is stored.
  unfoldable pub op_shift : ℕ → (Regs → ℕ → ℕ) → ℕ → AddrMode → M W (Unit {0})
  op_shift out_bit result addr m = do
    v ← load addr m
    rmw_dummy addr m v
    r ← regs
    on_regs (set_flag flag_c (nonzero (bit_and v out_bit)))
    let v' = result r v
    store addr m v'
    on_regs (set_zn v')

  unfoldable pub op_jsr : ℕ → M W (Unit {0})
  op_jsr addr = do
    r ← regs
    idle bus (bit_or 0x100 r.sp)
    r ← regs
    push16 bus r.pc
    r ← regs
    hi ← read bus r.pc
    on_regs (λ r. record r { pc = bit_or (u16 (hi * 256)) (bit_and addr 0x00FF) })

  unfoldable pub op_rts : M W (Unit {0})
  op_rts = do pull_idles; pc ← pop16 bus; idle bus pc; on_regs (λ r. record r { pc = u16 (pc + 1) })

  unfoldable pub op_rti : M W (Unit {0})
  op_rti = do
    pull_idles
    v ← pop bus
    on_regs (λ r. record r { p = pulled_status v })
    pc ← pop16 bus
    on_regs (λ r. record r { pc = pc })

  -- The rollback of a freshly asserted IRQ in a taken branch on the NES.
  unfoldable pub branch_delays_irq : M W (Unit {0})
  branch_delays_irq = do
    k ← variant
    s ← gets (λ c. c.latches)
    if is_nes k && s.irq_poll_prev && not s.irq_due
        then on_latches (λ s. record s { irq_poll_prev = false })
        else pure tt

  -- One more cycle than the base count, at `addr`.
  unfoldable pub branch_cycle : ℕ → M W (Unit {0})
  branch_cycle addr = do extra_cycle; idle bus addr

  unfoldable pub branch : ℕ → Bool → M W (Unit {0})
  branch addr take =
      if take
      then (do
        branch_delays_irq
        r ← regs
        branch_cycle r.pc
        r ← regs
        if page_differs r.pc addr
            then branch_cycle (bit_or (bit_and r.pc 0xFF00) (bit_and addr 0x00FF))
            else pure tt
        on_regs (λ r. record r { pc = addr }))
      else pure tt

  -- The branches on a flag: `f` is set, or clear.
  unfoldable pub op_branch : ℕ → Bool → ℕ → M W (Unit {0})
  op_branch f on addr = do r ← regs; branch addr (if on then has_flag f r else not (has_flag f r))

  -- Where an interrupt goes: a pending NMI takes over on the NES.
  unfoldable pub hijack : ℕ → M W ℕ
  hijack vec = do
    k ← variant
    pending ← gets (λ c. c.env.lines.nmi_pending)
    if is_nes k && pending
        then (do
          on_lines (λ l. record l { nmi_pending = false })
          on_latches (λ s. record s { nmi_due = false; nmi_poll_prev = false })
          pure vec_nmi)
        else pure vec

  -- `c.setFlag(FlagI, true)`, and on the 65C02 `c.setFlag(FlagD, false)`.
  unfoldable pub mask_interrupts : M W (Unit {0})
  mask_interrupts = do
    on_regs (set_flag flag_i true)
    k ← variant
    if is_cmos k then on_regs (set_flag flag_d false) else pure tt

  -- The vector's two bytes into PC.
  unfoldable pub jump_vector : ℕ → M W (Unit {0})
  jump_vector vec = do
    lo ← read bus vec
    hi ← read bus (u16 (vec + 1))
    on_regs (λ r. record r { pc = word lo hi })

  unfoldable pub op_brk : M W (Unit {0})
  op_brk = do
    r ← regs
    idle bus r.pc
    bump_pc 1
    r ← regs
    push16 bus r.pc
    vec ← hijack vec_irq
    r ← regs
    push bus (pushed_status r.p)
    mask_interrupts
    jump_vector vec
    k ← variant
    if is_nes k
        then on_latches (λ s. record s { nmi_due = false; nmi_poll_prev = false })
        else pure tt

  unfoldable pub op_nop : ℕ → AddrMode → M W (Unit {0})
  op_nop addr m = if is_operandless m then pure tt else (do read bus addr; pure tt)

  unfoldable pub op_stp : M W (Unit {0})
  op_stp = do set_halted true; set_stopped_by_stp true
