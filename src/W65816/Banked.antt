-- ===== src/W65816/Banked.antt =====
-- The two 24-bit buses of cpu/cpu816.go over a 16-bit bus: bus24From16, which mirrors it in every
-- bank, and Banked24, which has a store behind bank 0.
use chippy.Prelude.{ℕ, ◌%◌, ltb, u16, ◌==◌, if◌then◌else◌}
use chippy.Cpu.State.{Bus, Env}
use chippy.W65816.State.{Bus24}

unfoldable pub bus24_from16 : {W : Type 0} → Bus W → Bus24 W
bus24_from16 b = record { read24 = λ a. b.read (u16 a); write24 = λ a. b.write (u16 a) }

-- The devices of bank 0, and the flat store.
pub record Banked (W : Type 0) : Type 0 where
  pub outer : W
  pub mem : ℕ → ℕ

module _ {W : Type 0} where
  -- The environment of the bank-0 bus, and the whole one with that part replaced.
  unfoldable pub inner : Env (Banked W) → Env W
  inner env = record { lines = env.lines; world = env.world.outer }

  unfoldable pub with_inner : Env W → Env (Banked W) → Env (Banked W)
  with_inner e env = record { lines = e.lines; world = record (env.world) { outer = e.world } }

  unfoldable pub banked_read24 : Bus W → ℕ → Env (Banked W) → ℕ × Env (Banked W)
  banked_read24 bank0 addr env =
      let a = addr % 0x1000000 in
      let (v, e) = bank0.read (u16 a) (inner env) in
      if ltb a 0x10000 then (v, with_inner e env) else (env.world.mem a, env)

  unfoldable pub banked_write24 : Bus W → ℕ → ℕ → Env (Banked W) → Env (Banked W)
  banked_write24 bank0 addr v env =
      let a = addr % 0x1000000 in
      if ltb a 0x10000 then with_inner (bank0.write (u16 a) v (inner env)) env else record env {
        world = record (env.world) { mem = λ b. if b == a then v else env.world.mem b };
      }

  unfoldable pub banked24 : Bus W → Bus24 (Banked W)
  banked24 bank0 = record { read24 = banked_read24 bank0; write24 = banked_write24 bank0 }
