-- ===== src/Memory/Stack.antt =====
-- The stack in RAM: what is pushed is pulled again.
use chippy.Prelude.{
  ℕ, Bool, ◌+◌, ◌*◌, ◌<◌, ◌≡◌, refl, ◌∙◌, true, false, [], bit_or, word, u8, hi_byte, ◌==◌, ==_iff,
  each_below, each_below_at, arith,
}
use chippy.Cpu.State.{Cpu, ◌>>=◌, maybe, pure, gets, regs, on_regs, on_env}
use chippy.Cpu.Access.{push, pop, write, read, bus_read}
use chippy.Cpu.Access.Dma.{raw_read, raw_write, ask_byte, hook}
use chippy.Memory
use chippy.Memory.{Ram, ram_bus, put_byte, contains, shadow_write}

-- A RAM machine without per-cycle ticks and with nothing frozen, its bytes and SP in range.
pub record IsPlain (c : Cpu Ram) : Type 0 where
  pub batch : c.nes_cycle ≡ false
  pub thawed : c.env.world.frozen ≡ []
  pub sp_lt : c.regs.sp < 256

stack_addr_table : each_below 256 (λ s. bit_or 0x100 s == 256 + s) ≡ true
unfolding each_below
stack_addr_table = refl

stack_addr : (s : ℕ) → s < 256 → bit_or 0x100 s ≡ 256 + s
stack_addr s lt =
    (==_iff _ _).0 (each_below_at 256 (λ s. bit_or 0x100 s == 256 + s) s stack_addr_table lt)

-- `d` is `c` after a push of `v`.
pub record IsPushed (v : ℕ) (c d : Cpu Ram) : Type 0 where
  pub plain : IsPlain d
  pub a : d.regs.a ≡ c.regs.a
  pub x : d.regs.x ≡ c.regs.x
  pub y : d.regs.y ≡ c.regs.y
  pub p : d.regs.p ≡ c.regs.p
  pub pc : d.regs.pc ≡ c.regs.pc
  pub sp : d.regs.sp ≡ u8 (c.regs.sp + 255)
  pub bytes_eq : (a : ℕ) → d.env.world.bytes a ≡ put_byte c.env.world.bytes (256 + c.regs.sp) v a

pub push-IsPushed : (v : ℕ) (c : Cpu Ram) → IsPlain c → IsPushed v c (push ram_bus v c).1
unfolding push write ram_bus ◌>>=◌ maybe pure gets regs on_regs on_env raw_write hook Memory.write
    contains put_byte
push-IsPushed v c h =
    let at = stack_addr c.regs.sp h.sp_lt in
    record {
      plain = record {
        batch = ground (arith, h.batch);
        thawed = ground (arith, h.batch, h.thawed);
        sp_lt = ground (arith, h.batch);
      };
      a = ground (arith, h.batch);
      x = ground (arith, h.batch);
      y = ground (arith, h.batch);
      p = ground (arith, h.batch);
      pc = ground (arith, h.batch);
      sp = ground (arith, h.batch);
      bytes_eq = λ a. ground (arith, h.batch, h.thawed, at, h.sp_lt);
    }

pub record IsPopped (c d : Cpu Ram) : Type 0 where
  pub plain : IsPlain d
  pub a : d.regs.a ≡ c.regs.a
  pub x : d.regs.x ≡ c.regs.x
  pub y : d.regs.y ≡ c.regs.y
  pub p : d.regs.p ≡ c.regs.p
  pub pc : d.regs.pc ≡ c.regs.pc
  pub sp : d.regs.sp ≡ u8 (c.regs.sp + 1)
  pub bytes_eq : (a : ℕ) → d.env.world.bytes a ≡ c.env.world.bytes a

pub pop-value :
    (c : Cpu Ram)
    → IsPlain c
    → (pop ram_bus c).0 ≡ u8 (c.env.world.bytes (256 + u8 (c.regs.sp + 1)))
unfolding pop read bus_read ram_bus ◌>>=◌ maybe pure gets regs on_regs on_env raw_read ask_byte hook
    Memory.read
pop-value c h =
    let at = stack_addr (u8 (c.regs.sp + 1)) (omega arith) in ground (arith, h.batch, at)

pub pop-IsPopped : (c : Cpu Ram) → IsPlain c → IsPopped c (pop ram_bus c).1
unfolding pop read bus_read ram_bus ◌>>=◌ maybe pure gets regs on_regs on_env raw_read ask_byte hook
    Memory.read
pop-IsPopped c h = record {
  plain = record {
    batch = ground (arith, h.batch);
    thawed = ground (arith, h.batch, h.thawed);
    sp_lt = ground (arith, h.batch);
  };
  a = ground (arith, h.batch);
  x = ground (arith, h.batch);
  y = ground (arith, h.batch);
  p = ground (arith, h.batch);
  pc = ground (arith, h.batch);
  sp = ground (arith, h.batch);
  bytes_eq = λ a. ground (arith, h.batch);
}

word_row : ℕ → ℕ → Bool
unfolding word
word_row lo hi = word lo hi == lo + hi * 256

word_table : each_below 256 (λ lo. each_below 256 (word_row lo)) ≡ true
unfolding each_below word_row
word_table = refl

pub word-bytes : (v : ℕ) → v < 65536 → word (u8 v) (hi_byte v) ≡ v
unfolding word_row
word-bytes v lt =
    (==_iff _ _).0 (
      each_below_at 256 (word_row (u8 v)) (hi_byte v)
        (each_below_at 256 (λ lo. each_below 256 (word_row lo)) (u8 v) word_table (omega arith))
        (omega arith))
    ∙ omega arith

pub put_byte-same : (bytes : ℕ → ℕ) (a v : ℕ) → put_byte bytes a v a ≡ v
unfolding put_byte
put_byte-same bytes a v = ground arith
