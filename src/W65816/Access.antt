-- ===== src/W65816/Access.antt =====
-- The memory primitives of the 65816: the pins, read24 and write24 (cpu/cpu816.go), fetch816,
-- io816 and readImm (cpu/exec816.go), ioPC1, fetch16 and fetch24 (cpu/addr816.go).
use chippy.Prelude.{ℕ, ◌+◌, ◌*◌, ◌%◌, Bool, true, false, bit_or, word, u16, if◌then◌else◌}
use chippy.W65816.State.{Bus24, M, Pins, ◌>>=◌, ◌>>◌, pure, regs, on_regs, on_pins}

abbrev pub pin_vda : ℕ
pin_vda = 1

abbrev pub pin_vpa : ℕ
pin_vpa = 2

abbrev pub pin_vpb : ℕ
pin_vpb = 4

abbrev pub pin_mlb : ℕ
pin_mlb = 8

-- `uint32(bank)<<16 | uint32(addr)`
unfoldable pub banked : ℕ → ℕ → ℕ
banked bank addr = bit_or (bank * 0x10000) addr

-- `lo | mid<<8 | hi<<16` at `uint32`
unfoldable pub long : ℕ → ℕ → ℕ → ℕ
long lo mid hi = bit_or (bit_or lo (mid * 256)) (hi * 0x10000)

-- `uint16(x)-1`
unfoldable pub pred16 : ℕ → ℕ
pred16 v = u16 (v + 0xFFFF)

module _ {W : Type 0} where
  unfoldable pub set_pins : ℕ → M W (Unit {0})
  set_pins v = on_pins (λ p. record p { bus_pins = v })

  unfoldable pub pin_data : M W (Unit {0})
  unfolding set_pins
  pin_data = set_pins pin_vda

  unfoldable pub pin_prog : M W (Unit {0})
  unfolding set_pins
  pin_prog = set_pins pin_vpa

  unfoldable pub pin_none : M W (Unit {0})
  unfolding set_pins
  pin_none = set_pins 0

  unfoldable pub pin_vector : M W (Unit {0})
  unfolding set_pins
  pin_vector = set_pins (bit_or pin_vda pin_vpb)

module _ {W : Type 0} (bus : Bus24 W) where
  -- `addr & 0xFFFFFF`
  unfoldable pub read24 : ℕ → M W ℕ
  read24 addr c = let (v, env) = bus.read24 (addr % 0x1000000) c.env in (v, record c { env = env })

  unfoldable pub write24 : ℕ → ℕ → M W (Unit {0})
  write24 addr v c = (tt, record c { env = bus.write24 (addr % 0x1000000) v c.env })

  -- The pins of an instruction fetch.
  unfoldable pub fetch_pins : Pins → Pins
  fetch_pins p =
      if p.opcode_fetch
      then record p { bus_pins = bit_or pin_vda pin_vpa; opcode_fetch = false }
      else record p { bus_pins = pin_vpa }

  unfoldable pub fetch816 : M W ℕ
  fetch816 = do
    on_pins fetch_pins
    r ← regs
    b ← read24 (banked r.pbr r.pc)
    on_regs (λ r. record r { pc = u16 (r.pc + 1) })
    pure b

  unfoldable pub io816 : M W (Unit {0})
  io816 = do pin_none; r ← regs; _ ← read24 (banked r.pbr r.pc); pure tt

  unfoldable pub io_pc1 : M W (Unit {0})
  io_pc1 = do pin_none; r ← regs; _ ← read24 (banked r.pbr (pred16 r.pc)); pure tt

  -- `c.pinData()` and the read behind it.
  unfoldable pub read_data : ℕ → M W ℕ
  read_data addr = do pin_data; read24 addr

  unfoldable pub write_data : ℕ → ℕ → M W (Unit {0})
  write_data addr v = do pin_data; write24 addr v

  unfoldable pub fetch16 : M W ℕ
  fetch16 = do lo ← fetch816; hi ← fetch816; pure (word lo hi)

  unfoldable pub fetch24 : M W ℕ
  fetch24 = do lo ← fetch816; mid ← fetch816; hi ← fetch816; pure (long lo mid hi)

  -- The value and the extra cycle.
  unfoldable pub read_imm : Bool → M W (ℕ × ℕ)
  read_imm false = do lo ← fetch816; pure (lo, 0)
  read_imm true = do lo ← fetch816; hi ← fetch816; pure (word lo hi, 1)
