-- ===== src/W65816/Kernels.antt =====
-- The memory wrappers of cpu/arith816.go and cpu/ctrl816.go, and the kernels that they apply.
use chippy.Prelude.{
  ℕ, ◌+◌, ◌*◌, ◌/◌, Bool, true, false, not, ◌&&◌, ◌||◌, bit_and, bit_or, word, u8, u16, hi_byte,
  nonzero, and_not16, ◌==◌, if◌then◌else◌,
}
use chippy.Cpu.Flags.{flag_c, flag_z}
use chippy.W65816.State.{Bus24, Regs, M, ◌>>=◌, ◌>>◌, pure, regs, on_regs, through}
use chippy.W65816.Width.{has_flag, set_flag, set_zn, set_zn16, m_wide, x_wide, a16, set_a16}
use chippy.W65816.Access.{pin_vda, pin_mlb, set_pins, pin_none, read24, write24, io816}
use chippy.W65816.Modes.{Ea, b2i, ea_inc, cross_load, cross_store, when, read_ea, write_ea}

-- A function that an RMW kernel passes: the value and the width to the new value.
abbrev pub Rmw : Type 0
Rmw = ℕ → Bool → Regs → ℕ × Regs

abbrev carry_bit : ℕ → Regs → ℕ
carry_bit bit r = if has_flag flag_c r then bit else 0

abbrev result16 : Bool → ℕ → Regs → ℕ × Regs
result16 carry v r = (v, set_zn16 v (set_flag flag_c carry r))

abbrev result8 : Bool → ℕ → Regs → ℕ × Regs
result8 carry v r = (v, set_zn v (set_flag flag_c carry r))

unfoldable pub rmw_asl : Rmw
rmw_asl v true r = result16 (nonzero (bit_and v 0x8000)) (u16 (v * 2)) r
rmw_asl v false r = result8 (nonzero (bit_and (u8 v) 0x80)) (u8 (u8 v * 2)) r

unfoldable pub rmw_lsr : Rmw
rmw_lsr v true r = result16 (nonzero (bit_and v 1)) (v / 2) r
rmw_lsr v false r = result8 (nonzero (bit_and (u8 v) 1)) (u8 v / 2) r

unfoldable pub rmw_rol : Rmw
rmw_rol v true r = result16 (nonzero (bit_and v 0x8000)) (bit_or (u16 (v * 2)) (carry_bit 1 r)) r
rmw_rol v false r =
    result8 (nonzero (bit_and (u8 v) 0x80)) (bit_or (u8 (u8 v * 2)) (carry_bit 1 r)) r

unfoldable pub rmw_ror : Rmw
rmw_ror v true r = result16 (nonzero (bit_and v 1)) (bit_or (v / 2) (carry_bit 0x8000 r)) r
rmw_ror v false r = result8 (nonzero (bit_and (u8 v) 1)) (bit_or (u8 v / 2) (carry_bit 0x80 r)) r

unfoldable pub rmw_inc : Rmw
rmw_inc v true r = let w = u16 (v + 1) in (w, set_zn16 w r)
rmw_inc v false r = let w = u8 (u8 v + 1) in (w, set_zn w r)

unfoldable pub rmw_dec : Rmw
rmw_dec v true r = let w = u16 (v + 0xFFFF) in (w, set_zn16 w r)
rmw_dec v false r = let w = u8 (u8 v + 0xFF) in (w, set_zn w r)

unfoldable pub tsb : Rmw
tsb v true r = (bit_or v (a16 r), set_flag flag_z (bit_and (a16 r) v == 0) r)
tsb v false r = (bit_or v r.a, set_flag flag_z (bit_and r.a v == 0) r)

unfoldable pub trb : Rmw
trb v true r = (and_not16 v (a16 r), set_flag flag_z (bit_and (a16 r) v == 0) r)
trb v false r = (and_not16 v r.a, set_flag flag_z (bit_and r.a v == 0) r)

-- The accumulator's new value at its width.
unfoldable pub acc_result : Rmw → Bool → Regs → Regs
acc_result fn true r = let (v, r') = fn (a16 r) true r in set_a16 v r'
acc_result fn false r = let (v, r') = fn r.a false r in record r' { a = u8 v }

module _ {W : Type 0} (bus : Bus24 W) where
  unfoldable pub index_io : Ea → Bool → M W (Unit {0})
  index_io e store = do
    r ← regs
    when ((store && not (cross_store e == 0)) || (not store && not (cross_load e r == 0)))
        (do pin_none; _ ← read24 bus e.unfixed; pure tt)

  -- `accRead` and `idxRead`, at the width of the accumulator or of the index registers.
  unfoldable pub read_operand : (Regs → Bool) → (ℕ → Regs → Regs) → Ea × ℕ → M W ℕ
  read_operand width fn (e, oc) = do
    r ← regs
    let wide = width r
    index_io e false
    v ← read_ea bus e wide
    on_regs (fn v)
    r ← regs
    pure (oc + 1 + b2i wide + cross_load e r)

  -- `accWrite` and `idxWrite`
  unfoldable pub write_operand : (Regs → Bool) → (Regs → ℕ) → Ea × ℕ → M W ℕ
  write_operand width value (e, oc) = do
    r ← regs
    let wide = width r
    index_io e true
    write_ea bus e wide (value r)
    pure (oc + 1 + b2i wide + cross_store e)

  unfoldable pub acc_read : (ℕ → Regs → Regs) → Ea × ℕ → M W ℕ
  unfolding read_operand
  acc_read = read_operand m_wide

  unfoldable pub idx_read : (ℕ → Regs → Regs) → Ea × ℕ → M W ℕ
  unfolding read_operand
  idx_read = read_operand x_wide

  unfoldable pub acc_write : (Regs → ℕ) → Ea × ℕ → M W ℕ
  unfolding write_operand
  acc_write = write_operand m_wide

  unfoldable pub idx_write : (Regs → ℕ) → Ea × ℕ → M W ℕ
  unfolding write_operand
  idx_write = write_operand x_wide

  abbrev locked_read : ℕ → M W ℕ
  locked_read addr = do set_pins (bit_or pin_vda pin_mlb); read24 bus addr

  abbrev locked_write : ℕ → ℕ → M W (Unit {0})
  locked_write addr v = do set_pins (bit_or pin_vda pin_mlb); write24 bus addr v

  -- The internal cycle of the 8-bit form.
  unfoldable pub modify8 : Bool → ℕ → ℕ → M W (Unit {0})
  modify8 true addr old = write24 bus addr old
  modify8 false addr old = do _ ← read24 bus addr; pure tt

  -- The memory part of `rmwMem`, at the width of the accumulator.
  unfoldable pub rmw_bytes : Bool → Rmw → Ea → M W (Unit {0})
  rmw_bytes true fn e = do
    let hi_addr = ea_inc e.addr e.bank0
    lo ← locked_read e.addr
    hi ← locked_read hi_addr
    v ← through (fn (word lo hi) true)
    set_pins pin_mlb
    _ ← read24 bus hi_addr
    locked_write hi_addr (hi_byte v)
    locked_write e.addr (u8 v)
  rmw_bytes false fn e = do
    old ← locked_read e.addr
    v ← through (fn old false)
    set_pins pin_mlb
    r ← regs
    modify8 r.e e.addr old
    locked_write e.addr (u8 v)

  unfoldable pub rmw_mem : Rmw → Ea × ℕ → M W ℕ
  rmw_mem fn (e, oc) = do
    r ← regs
    let wide = m_wide r
    index_io e true
    rmw_bytes wide fn e
    pure (oc + 3 + 2 * b2i wide + cross_store e)

  unfoldable pub acc_rmw : Rmw → M W (Unit {0})
  acc_rmw fn = do on_regs (λ r. acc_result fn (m_wide r) r); io816 bus
