-- ===== src/Cpu/Illegal.antt =====
-- The undocumented NMOS instructions: the handlers of cpu/opcodes_illegal.go.
use chippy.Prelude.{
  ℕ, ◌+◌, ◌*◌, ◌/◌, true, false, u8, u16, nonzero, bit_and, bit_or, bit_xor, ltb, if◌then◌else◌,
}
use chippy.Cpu.State.{M, Bus, Regs}
use chippy.Cpu.State.{◌>>=◌, ◌>>◌, regs, on_regs}
use chippy.Cpu.Flags.{flag_c, flag_d, flag_v, set_flag, has_flag, set_zn}
use chippy.Cpu.Alu.{carry_in, add_binary, sub_binary, adc_decimal, sbc_decimal, compare_flags}
use chippy.Cpu.Access.{read, write}
use chippy.Cpu.Ops.{put_a, put_x}

-- `carryIn` as bit 7
unfoldable pub carry_high : Regs → ℕ
unfolding has_flag
carry_high r = if has_flag flag_c r then 0x80 else 0

-- `v << 1`, `(v << 1) | carryIn`, `v >> 1`, `(v >> 1) | carryIn`
unfoldable pub shift_left : Regs → ℕ → ℕ
shift_left r v = u8 (v * 2)

unfoldable pub rotate_left : Regs → ℕ → ℕ
unfolding carry_in
rotate_left r v = bit_or (u8 (v * 2)) (carry_in r)

unfoldable pub shift_right : Regs → ℕ → ℕ
shift_right r v = v / 2

unfoldable pub rotate_right : Regs → ℕ → ℕ
unfolding carry_high
rotate_right r v = bit_or (v / 2) (carry_high r)

-- The registers after ARR, for `t` the conjunction of A and the operand.
unfoldable pub arr_regs : ℕ → Regs → Regs
unfolding rotate_right set_flag set_zn has_flag
arr_regs t r =
    let res = rotate_right r t in
    if has_flag flag_d r
    then (let r1 = set_flag flag_v (nonzero (bit_and (bit_xor t res) 0x40)) (set_zn res r) in
        let low =
          (if ltb 0x05 (bit_and t 0x0F + bit_and t 0x01)
            then bit_or (bit_and res 0xF0) (bit_and (u8 (res + 0x06)) 0x0F)
            else res) in
        if ltb 0x50 (bit_and t 0xF0 + bit_and t 0x10)
        then (let r2 = set_flag flag_c true r1 in record r2 { a = u8 (low + 0x60) })
        else (let r2 = set_flag flag_c false r1 in record r2 { a = low }))
    else (let r1 =
          set_flag flag_c (nonzero (bit_and res 0x40)) (set_zn res (record r { a = res })) in
        set_flag flag_v (nonzero (bit_and (bit_xor (res / 64) (res / 32)) 1)) r1)

-- The registers after SBX.
unfoldable pub sbx_regs : ℕ → Regs → Regs
unfolding set_flag put_x
sbx_regs v r =
    let tmp = u16 (bit_and r.a r.x + bit_xor v 0xFF + 1) in
    put_x (u8 tmp) (set_flag flag_c (ltb 0xFF tmp) r)

-- `c.A = v; c.X = v; c.setZN(v)`
unfoldable pub put_ax : ℕ → Regs → Regs
unfolding set_zn
put_ax v r = set_zn v (record r { a = v; x = v })

-- `A &= v`, `setZN`, then the carry from bit 7.
unfoldable pub anc_regs : ℕ → Regs → Regs
unfolding put_a set_flag
anc_regs v r = let r1 = put_a (bit_and r.a v) r in set_flag flag_c (nonzero (bit_and r1.a 0x80)) r1

unfoldable pub alr_regs : ℕ → Regs → Regs
unfolding put_a set_flag
alr_regs v r =
    let t = bit_and r.a v in
    put_a (t / 2) (set_flag flag_c (nonzero (bit_and t 1)) (record r { a = t }))

-- `byte((addr >> 8) + 1)`
unfoldable pub high_plus_one : ℕ → ℕ
high_plus_one addr = u8 (u16 (addr / 256 + 1))

module _ {W : Type 0} (bus : Bus W) where
  unfoldable pub op_dcp : ℕ → M W (Unit {0})
  op_dcp addr = do
    old ← read bus addr
    write bus addr old
    let v = u8 (old + 255)
    write bus addr v
    on_regs (λ r. compare_flags r.a v r)

  unfoldable pub op_isc : ℕ → M W (Unit {0})
  op_isc addr = do
    old ← read bus addr
    write bus addr old
    let v = u8 (old + 1)
    write bus addr v
    on_regs (λ r. (if has_flag flag_d r then sbc_decimal else sub_binary) v (carry_in r) r)

  -- SLO, RLA, SRE: shift the byte in memory, then combine it with A.
  unfoldable pub op_shift_combine : ℕ → (Regs → ℕ → ℕ) → (ℕ → ℕ → ℕ) → ℕ → M W (Unit {0})
  op_shift_combine out_bit result combine addr = do
    v ← read bus addr
    write bus addr v
    r ← regs
    on_regs (set_flag flag_c (nonzero (bit_and v out_bit)))
    let v' = result r v
    write bus addr v'
    on_regs (λ r. put_a (combine r.a v') r)

  unfoldable pub op_rra : ℕ → M W (Unit {0})
  op_rra addr = do
    v ← read bus addr
    write bus addr v
    r ← regs
    on_regs (set_flag flag_c (nonzero (bit_and v 1)))
    let v' = rotate_right r v
    write bus addr v'
    on_regs (λ r. (if has_flag flag_d r then adc_decimal else add_binary) v' (carry_in r) r)

  unfoldable pub op_tas : ℕ → M W (Unit {0})
  op_tas addr = do
    on_regs (λ r. record r { sp = bit_and r.a r.x })
    r ← regs
    write bus addr (bit_and (bit_and r.a r.x) (high_plus_one addr))

-- LAS: `A = X = SP = M & SP`
unfoldable pub las_regs : ℕ → Regs → Regs
unfolding set_zn
las_regs v r = let t = bit_and v r.sp in set_zn t (record r { a = t; x = t; sp = t })
