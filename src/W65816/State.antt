-- ===== src/W65816/State.antt =====
-- The fields of the struct CPU (cpu/cpu.go) that the 65816 uses, the 24-bit memory interface of
-- cpu/cpu816.go, and the actions on that state.
use chippy.Prelude.{ℕ, ◌+◌, Bool, u64}
use chippy.Cpu.State.{Env, Lines}

-- `a`, `x`, `y` and `sp` are the low bytes, `b`, `xh`, `yh` and `sp_hi` the high bytes.
pub record Regs : Type 0 where
  pub a : ℕ
  pub b : ℕ
  pub x : ℕ
  pub xh : ℕ
  pub y : ℕ
  pub yh : ℕ
  pub sp : ℕ
  pub sp_hi : ℕ
  pub p : ℕ
  pub pc : ℕ
  pub d : ℕ
  pub dbr : ℕ
  pub pbr : ℕ
  pub e : Bool

-- The state of the bus trace.
pub record Pins : Type 0 where
  pub bus_pins : ℕ
  pub bus_e : Bool
  pub bus_m : Bool
  pub bus_x : Bool
  pub opcode_fetch : Bool

pub record Cpu (W : Type 0) : Type 0 where
  pub regs : Regs
  pub pins : Pins
  pub env : Env W
  pub cycles : ℕ
  pub halted : Bool
  pub stopped_by_stp : Bool
  pub abort_pending : Bool
  pub nmi_due : Bool
  pub irq_due : Bool

pub record Bus24 (W : Type 0) : Type 0 where
  pub read24 : ℕ → Env W → ℕ × Env W
  pub write24 : ℕ → ℕ → Env W → Env W

-- An action: what a method returns, and the CPU that it leaves.
abbrev pub M : Type 0 → Type 0 → Type 0
M W A = Cpu W → A × Cpu W

module _ {W A B : Type 0} where
  infixl 10 ◌>>=◌ ◌>>◌
  unfoldable pub ◌>>=◌ : M W A → (A → M W B) → M W B
  ◌>>=◌ m f c = let (a, c') = m c in f a c'

  abbrev pub ◌>>◌ : M W A → M W B → M W B
  m >> n = m >>= λ _. n

module _ {W : Type 0} where
  unfoldable pub pure : {A : Type 0} → A → M W A
  pure a c = (a, c)

  unfoldable pub regs : M W Regs
  regs c = (c.regs, c)

  unfoldable pub on_regs : (Regs → Regs) → M W (Unit {0})
  on_regs f c = (tt, record c { regs = f c.regs })

  -- The value and the registers that a function of the registers gives.
  unfoldable pub through : {A : Type 0} → (Regs → A × Regs) → M W A
  through f c = let (a, r) = f c.regs in (a, record c { regs = r })

  unfoldable pub pins : M W Pins
  pins c = (c.pins, c)

  unfoldable pub on_pins : (Pins → Pins) → M W (Unit {0})
  on_pins f c = (tt, record c { pins = f c.pins })

  unfoldable pub on_lines : (Lines → Lines) → M W (Unit {0})
  on_lines f c = (tt, record c { env = record (c.env) { lines = f c.env.lines } })

  unfoldable pub set_halted : Bool → M W (Unit {0})
  set_halted b c = (tt, record c { halted = b })

  unfoldable pub set_stopped_by_stp : Bool → M W (Unit {0})
  set_stopped_by_stp b c = (tt, record c { stopped_by_stp = b })

  unfoldable pub set_abort_pending : Bool → M W (Unit {0})
  set_abort_pending b c = (tt, record c { abort_pending = b })

  -- `c.Cycles += uint64(n)`
  unfoldable pub add_cycles : ℕ → M W (Unit {0})
  add_cycles n c = (tt, record c { cycles = u64 (c.cycles + n) })
