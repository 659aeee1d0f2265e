-- ===== src/Mmio.antt =====
-- cpu/peripheral.go: devices on ranges of addresses in front of another bus.
pub mod Dispatch
use chippy.Prelude.{
  ℕ, ◌≡◌, Bool, true, false, ◌&&◌, ◌||◌, Option, none, some, List, [], ◌∷◌, ◌++◌, ltb, leb, u16,
  if◌then◌else◌,
}
use chippy.Cpu.State.{Bus, Env}
use chippy.Memory.{contains, remove}

-- `tick` and `peek` are `none` where the device implements no Ticker and no Peeker. A device may
-- drive the CPU's lines.
pub record Peripheral (W : Type 0) : Type 0 where
  pub lo : ℕ
  pub hi : ℕ
  pub read : ℕ → Env W → ℕ × Env W
  pub write : ℕ → ℕ → Env W → Env W
  pub tick : Option (ℕ → Env W → Env W)
  pub peek : Option (ℕ → Env W → ℕ)

pub record Mmio (W : Type 0) : Type 0 where
  pub inner : Bus W
  pub peripherals : List (Peripheral W)
  pub frozen : List ℕ

module _ {W : Type 0} where
  unfoldable pub new_mmio : Bus W → Mmio W
  new_mmio inner = record { inner = inner; peripherals = []; frozen = [] }

  abbrev pub covers : Peripheral W → ℕ → Bool
  covers p addr = leb p.lo addr && leb addr p.hi

  -- `lo <= qhi && qlo <= hi`
  abbrev pub overlaps : Peripheral W → Peripheral W → Bool
  overlaps p q = leb p.lo q.hi && leb q.lo p.hi

  unfoldable pub any_overlaps : Peripheral W → List (Peripheral W) → Bool
  any_overlaps p [] = false
  any_overlaps p (q ∷ l) = overlaps p q || any_overlaps p l

  -- Register; `none` is an error.
  unfoldable pub register : Peripheral W → Mmio W → Option (Mmio W)
  unfolding any_overlaps
  register p m =
      if ltb p.hi p.lo
      then none
      else if any_overlaps p m.peripherals
      then none
      else some (record m { peripherals = m.peripherals ++ p ∷ [] })

  -- The first device whose range has the address.
  unfoldable pub find_peripheral : ℕ → List (Peripheral W) → Option (Peripheral W)
  find_peripheral addr [] = none
  find_peripheral addr (p ∷ l) = if covers p addr then some p else find_peripheral addr l

  unfoldable pub read_on : Option (Peripheral W) → Bus W → ℕ → Env W → ℕ × Env W
  read_on none inner addr e = inner.read addr e
  read_on (some p) inner addr e = p.read addr e

  unfoldable pub read : Mmio W → ℕ → Env W → ℕ × Env W
  unfolding find_peripheral read_on
  read m addr e = read_on (find_peripheral addr m.peripherals) m.inner addr e

  unfoldable pub write_on : Option (Peripheral W) → Bus W → ℕ → ℕ → Env W → Env W
  write_on none inner addr v e = inner.write addr v e
  write_on (some p) inner addr v e = p.write addr v e

  unfoldable pub dispatch_write : Mmio W → ℕ → ℕ → Env W → Env W
  unfolding find_peripheral write_on
  dispatch_write m addr v e = write_on (find_peripheral addr m.peripherals) m.inner addr v e

  unfoldable pub write : Mmio W → ℕ → ℕ → Env W → Env W
  unfolding dispatch_write
  write m addr v e = if contains m.frozen addr then e else dispatch_write m addr v e

  -- Freeze writes through to the device, then suppresses the writes that follow.
  unfoldable pub freeze : Mmio W → ℕ → ℕ → Env W → Mmio W × Env W
  unfolding dispatch_write
  freeze m addr v e = (
    record m { frozen = if contains m.frozen addr then m.frozen else addr ∷ m.frozen },
    dispatch_write m addr v e,
  )

  unfoldable pub unfreeze : Mmio W → ℕ → Mmio W
  unfreeze m addr = record m { frozen = remove m.frozen addr }

  unfoldable pub tick_with : Option (ℕ → Env W → Env W) → ℕ → Env W → Env W
  tick_with none n e = e
  tick_with (some f) n e = f n e

  unfoldable pub tick_all : List (Peripheral W) → ℕ → Env W → Env W
  unfolding tick_with
  tick_all [] n e = e
  tick_all (p ∷ l) n e = tick_all l n (tick_with p.tick n e)

  unfoldable pub tick : Mmio W → ℕ → Env W → Env W
  unfolding tick_all
  tick m n e = tick_with m.inner.bus_ticker n (tick_all m.peripherals n e)

  -- A device without a Peek shows what is behind it.
  unfoldable pub peek_on : Option (Peripheral W) → Bus W → ℕ → Env W → ℕ
  peek_on none inner addr e = (inner.read addr e).0
  peek_on (some p) inner addr e = elim p.peek [ none ↦ (inner.read addr e).0 | some f ↦ f addr e ]

  unfoldable pub peek : Mmio W → ℕ → Env W → ℕ
  unfolding find_peripheral peek_on
  peek m addr e = peek_on (find_peripheral addr m.peripherals) m.inner addr e

  -- MMIO is a Bus and a Ticker.
  unfoldable pub mmio_bus : Mmio W → Bus W
  unfolding read write tick
  mmio_bus m = record {
    read = λ addr e. read m (u16 addr) e;
    write = λ addr v e. write m (u16 addr) v e;
    bus_ticker = some (tick m);
    dma_bus = none;
    access_hook = none;
    ppu_runner = none;
    dmc_fetcher = none;
  }
