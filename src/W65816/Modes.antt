-- ===== src/W65816/Modes.antt =====
-- The addressing modes of cpu/addr816.go: each reads its operand and gives the effective address
-- with the cycles spent so far.
use chippy.Prelude.{
  ℕ, ◌+◌, ◌%◌, Bool, true, false, not, ◌&&◌, ◌||◌, bit_and, bit_or, word, u8, u16, hi_byte, ◌==◌,
  if◌then◌else◌,
}
use chippy.W65816.State.{Bus24, Regs, M, ◌>>=◌, ◌>>◌, pure, regs}
use chippy.W65816.Width.{x_wide}
use chippy.W65816.Access.{banked, long, io_pc1, read_data, write_data}

pub record Ea : Type 0 where
  pub addr : ℕ
  pub bank0 : Bool
  pub idx : Bool
  pub cross : Bool
  pub unfixed : ℕ

-- `ea816{addr: addr}` and `ea816{addr: addr, bank0: true}`
abbrev pub plain : ℕ → Ea
plain addr = record { addr = addr; bank0 = false; idx = false; cross = false; unfixed = 0 }

abbrev pub in_bank0 : ℕ → Ea
in_bank0 addr = record { addr = addr; bank0 = true; idx = false; cross = false; unfixed = 0 }

unfoldable pub b2i : Bool → ℕ
b2i true = 1
b2i false = 0

unfoldable pub ea_inc : ℕ → Bool → ℕ
ea_inc a bank0 = if bank0 then u16 (u16 a + 1) else (a + 1) % 0x1000000

-- `a&0xFF0000 | uint32(uint16(a)+1)`
unfoldable pub bank_inc : ℕ → ℕ
bank_inc a = bit_or (bit_and a 0xFF0000) (u16 (u16 a + 1))

-- `c.D&0xFF != 0`
unfoldable pub dl_set : Regs → Bool
dl_set r = not (bit_and r.d 0xFF == 0)

unfoldable pub dl_penalty : Regs → ℕ
dl_penalty r = if dl_set r then 1 else 0

-- `dpBase` and `dpOff`, which have one body.
unfoldable pub dp_base : ℕ → ℕ → Regs → ℕ
dp_base dp idx r =
    if r.e && not (dl_set r) then bit_or r.d (u8 (u16 (dp + idx))) else u16 (r.d + dp + idx)

unfoldable pub dp_off : ℕ → ℕ → Regs → ℕ
dp_off dp off r =
    if r.e && not (dl_set r) then bit_or r.d (u8 (u16 (dp + off))) else u16 (r.d + dp + off)

unfoldable pub unfixed_addr : ℕ → ℕ → ℕ → ℕ
unfixed_addr bank base idx =
    banked bank (bit_or (bit_and base 0xFF00) (bit_and (u16 (base + idx)) 0xFF))

-- `(full + uint32(idx)) & 0xFFFFFF` with the page-cross test, as abs,X and (dp),Y form it.
unfoldable pub indexed : ℕ → ℕ → ℕ → Ea
indexed bank base idx = record {
  addr = (banked bank base + idx) % 0x1000000;
  bank0 = false;
  idx = true;
  cross = not (bit_and base 0xFF00 == bit_and (u16 (base + idx)) 0xFF00);
  unfixed = unfixed_addr bank base idx;
}

unfoldable pub cross_load : Ea → Regs → ℕ
cross_load e r = if e.idx && (x_wide r || e.cross) then 1 else 0

unfoldable pub cross_store : Ea → ℕ
cross_store e = if e.idx then 1 else 0

module _ {W : Type 0} where
  -- `if b { … }`
  unfoldable pub when : Bool → M W (Unit {0}) → M W (Unit {0})
  when true m = m
  when false m = pure tt

module _ {W : Type 0} (bus : Bus24 W) where
  unfoldable pub dp_io : M W (Unit {0})
  dp_io = do r ← regs; when (dl_set r) (io_pc1 bus)

  unfoldable pub read_ea : Ea → Bool → M W ℕ
  read_ea e false = read_data bus e.addr
  read_ea e true = do
    lo ← read_data bus e.addr
    hi ← read_data bus (ea_inc e.addr e.bank0)
    pure (word lo hi)

  unfoldable pub write_ea : Ea → Bool → ℕ → M W (Unit {0})
  write_ea e wide v = do
    write_data bus e.addr (u8 v)
    when wide (write_data bus (ea_inc e.addr e.bank0) (hi_byte v))

  unfoldable pub read_dp_word : ℕ → ℕ → M W ℕ
  read_dp_word dp idx = do
    r ← regs
    let base = dp_base dp idx r
    lo ← read_data bus base
    hi ← read_data bus (u16 (u16 base + 1))
    pure (word lo hi)

  unfoldable pub read_dp_long : ℕ → M W ℕ
  read_dp_long dp = do
    r ← regs
    let base = dp_base dp 0 r
    b0 ← read_data bus base
    b1 ← read_data bus (u16 (u16 base + 1))
    b2 ← read_data bus (u16 (u16 base + 2))
    pure (long b0 b1 b2)

  unfoldable pub read_dp_word_wrap : ℕ → M W ℕ
  read_dp_word_wrap dp = do
    r ← regs
    lo ← read_data bus (dp_off dp 0 r)
    hi ← read_data bus (dp_off dp 1 r)
    pure (word lo hi)

  unfoldable pub read_dp_long_wrap : ℕ → M W ℕ
  read_dp_long_wrap dp = do
    r ← regs
    b0 ← read_data bus (dp_off dp 0 r)
    b1 ← read_data bus (dp_off dp 1 r)
    b2 ← read_data bus (dp_off dp 2 r)
    pure (long b0 b1 b2)
