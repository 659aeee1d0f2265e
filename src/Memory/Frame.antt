-- ===== src/Memory/Frame.antt =====
-- cpu/stackframe.go: the debugger finds the frame that JSR pushes.
use chippy.Prelude.{
  ℕ, ◌+◌, ◌-◌, ◌*◌, ◌%◌, ◌<◌, ◌≤◌, ◌≡◌, ap, ◌∙◌, not, Option, none, some, bit_or, u8, u16, hi_byte,
  ltb, ◌==◌, if◌then◌else◌, arith,
}
use chippy.Cpu.State.{Cpu, ◌>>=◌}
use chippy.Cpu.Access.{push, push16}
use chippy.Cpu.Addressing.Pages.{join}
use chippy.Memory.{Ram, ram_bus, read, put_byte}
use chippy.Memory.Stack.{IsPlain, push-IsPushed}

abbrev stack_code_min_addr : ℕ
stack_code_min_addr = 0x0200

-- The return address and the target of the JSR, when all the signals hold.
unfoldable pub detect_stack_frame : Ram → ℕ → Option (ℕ × ℕ)
unfolding read
detect_stack_frame r sp_lo =
    let stored : ℕ = bit_or (read r (u16 (sp_lo + 1)) * 256) (read r sp_lo) in
    let target : ℕ = bit_or (read r stored * 256) (read r (u16 (stored + 65535))) in
    if sp_lo % 256 == 0xFF
    then none
    else if ltb stored stack_code_min_addr
    then none
    else if not (read r (u16 (stored + 65534)) == 0x20)
    then none
    else if ltb target stack_code_min_addr
    then none
    else some (u16 (stored + 1), target)

-- A JSR to `target` stands before the address `stored` in RAM, its last byte at it.
pub record HasCall (bytes : ℕ → ℕ) (stored target : ℕ) : Type 0 where
  pub opcode : bytes (stored - 2) ≡ 0x20
  pub low : bytes (stored - 1) ≡ u8 target
  pub high : bytes stored ≡ hi_byte target
  pub stored_ge : 0x0202 ≤ stored
  pub stored_lt : stored < 65536
  pub target_ge : 0x0200 ≤ target
  pub target_lt : target < 65536

detected :
    (r : Ram) (sp_lo stored target : ℕ)
    → sp_lo < 0x01FF
    → 0x0100 ≤ sp_lo
    → r.bytes sp_lo ≡ u8 stored
    → r.bytes (sp_lo + 1) ≡ hi_byte stored
    → HasCall r.bytes stored target
    → detect_stack_frame r sp_lo ≡ some (u16 (stored + 1), target)
unfolding detect_stack_frame read
detected r sp_lo stored target lt ge low high h =
    let next : u16 (sp_lo + 1) ≡ sp_lo + 1 = omega (arith, lt) in
    let address : bit_or (r.bytes (u16 (sp_lo + 1)) * 256) (r.bytes sp_lo) ≡ stored =
      ap (λ a. bit_or (r.bytes a * 256) (r.bytes sp_lo)) next
      ∙ ap (λ b. bit_or (b * 256) (r.bytes sp_lo)) high
      ∙ ap (bit_or (hi_byte stored * 256)) low
      ∙ join (hi_byte stored) (u8 stored) (omega arith) (omega arith)
      ∙ omega (arith, h.stored_lt) in
    let back1 : u16 (stored + 65535) ≡ stored - 1 = omega (arith, h.stored_lt, h.stored_ge) in
    let back2 : u16 (stored + 65534) ≡ stored - 2 = omega (arith, h.stored_lt, h.stored_ge) in
    let callee : bit_or (r.bytes stored * 256) (r.bytes (stored - 1)) ≡ target =
      ap (λ b. bit_or (b * 256) (r.bytes (stored - 1))) h.high
      ∙ ap (bit_or (hi_byte target * 256)) h.low
      ∙ join (hi_byte target) (u8 target) (omega arith) (omega arith)
      ∙ omega (arith, h.target_lt) in
    ground (arith, lt, ge, address, back1, back2, callee, h.opcode, h.stored_ge, h.target_ge)

-- Bytes outside the two stack cells are those from before.
push16-bytes :
    (v : ℕ) (c : Cpu Ram)
    → IsPlain c
    → 1 ≤ c.regs.sp
    → (a : ℕ)
    → (push16 ram_bus v c).1.env.world.bytes a
      ≡ put_byte
          (put_byte c.env.world.bytes (256 + c.regs.sp) (hi_byte v))
          (255 + c.regs.sp)
          (u8 v)
          a
unfolding push16 ◌>>=◌ put_byte
push16-bytes v c h one a =
    let c1 = (push ram_bus (hi_byte v) c).1 in
    let i1 = push-IsPushed (hi_byte v) c h in
    let i2 = push-IsPushed (u8 v) c1 i1.plain in
    let cell : 256 + c1.regs.sp ≡ 255 + c.regs.sp = omega (arith, i1.sp, h.sp_lt, one) in
    i2.bytes_eq a
    ∙ ap (λ k. put_byte c1.env.world.bytes k (u8 v) a) cell
    ∙ ap (λ b. if a == 255 + c.regs.sp then u8 v else b) (i1.bytes_eq a)

-- On a RAM machine without per-cycle ticks, with nothing frozen and SP a byte that is not 0: when a JSR
-- to a target from 0x0200 to 0xFFFF stands in RAM with its last byte at `stored`, from 0x0202 to 0xFFFF,
-- pushing `stored` leaves a stack in which the frame of that call is detected, with the address that RTS
-- jumps to and the target.
pub detect_stack_frame-push16 :
    (stored target : ℕ) (c : Cpu Ram)
    → IsPlain c
    → 1 ≤ c.regs.sp
    → HasCall c.env.world.bytes stored target
    → detect_stack_frame (push16 ram_bus stored c).1.env.world (255 + c.regs.sp)
      ≡ some (u16 (stored + 1), target)
detect_stack_frame-push16 stored target c h one code =
    let eq = push16-bytes stored c h one in
    detected (push16 ram_bus stored c).1.env.world (255 + c.regs.sp) stored target
      (omega (arith, h.sp_lt, one)) (omega arith)
      (eq (255 + c.regs.sp) ∙ unfold put_byte in ground arith)
      (eq (255 + c.regs.sp + 1) ∙ unfold put_byte in ground arith)
      (record {
        opcode =
            eq (stored - 2)
            ∙ unfold put_byte in ground (arith, code.stored_ge, code.opcode, h.sp_lt);
        low =
            eq (stored - 1) ∙ unfold put_byte in ground (arith, code.stored_ge, code.low, h.sp_lt);
        high = eq stored ∙ unfold put_byte in ground (arith, code.stored_ge, code.high, h.sp_lt);
        stored_ge = code.stored_ge;
        stored_lt = code.stored_lt;
        target_ge = code.target_ge;
        target_lt = code.target_lt;
      })
