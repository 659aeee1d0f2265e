-- ===== src/Memory/Calls.antt =====
-- JSR and RTS on a machine whose code and stack are in RAM.
use chippy.Prelude.{
  ℕ, ◌+◌, ◌<◌, ◌≡◌, sym, ap, ◌∙◌, false, bit_or, word, u8, u16, hi_byte, ◌==◌, if◌then◌else◌, arith,
}
use chippy.Cpu.State.{Cpu, ◌>>=◌, maybe, pure, gets, regs, on_regs, on_env}
use chippy.Cpu.Access.{push, pop, push16, pop16, read, bus_read, idle}
use chippy.Cpu.Access.Dma.{raw_read, ask_byte, hook}
use chippy.Cpu.Ops.{op_jsr, op_rts, pull_idles}
use chippy.Memory
use chippy.Memory.{Ram, ram_bus, put_byte}
use chippy.Memory.Stack.{IsPlain, push-IsPushed, pop-IsPopped, pop-value, put_byte-same, word-bytes}

-- `d` has the registers and the memory of `c`.
record IsStill (c d : Cpu Ram) : Type 0 where
  plain : IsPlain d
  a : d.regs.a ≡ c.regs.a
  x : d.regs.x ≡ c.regs.x
  y : d.regs.y ≡ c.regs.y
  p : d.regs.p ≡ c.regs.p
  sp : d.regs.sp ≡ c.regs.sp
  pc : d.regs.pc ≡ c.regs.pc
  bytes_eq : (i : ℕ) → d.env.world.bytes i ≡ c.env.world.bytes i

idle-IsStill : (addr : ℕ) (c : Cpu Ram) → IsPlain c → IsStill c (idle ram_bus addr c).1
unfolding idle ◌>>=◌ gets pure
idle-IsStill addr c h = record {
  plain = record {
    batch = ground (arith, h.batch);
    thawed = ground (arith, h.batch, h.thawed);
    sp_lt = ground (arith, h.batch, h.sp_lt);
  };
  a = ground (arith, h.batch);
  x = ground (arith, h.batch);
  y = ground (arith, h.batch);
  p = ground (arith, h.batch);
  sp = ground (arith, h.batch);
  pc = ground (arith, h.batch);
  bytes_eq = λ i. ground (arith, h.batch);
}

read-IsStill : (addr : ℕ) (c : Cpu Ram) → IsPlain c → IsStill c (read ram_bus addr c).1
unfolding read bus_read ram_bus ◌>>=◌ gets maybe pure on_env raw_read ask_byte hook Memory.read
read-IsStill addr c h = record {
  plain = record {
    batch = ground (arith, h.batch);
    thawed = ground (arith, h.batch, h.thawed);
    sp_lt = ground (arith, h.batch, h.sp_lt);
  };
  a = ground (arith, h.batch);
  x = ground (arith, h.batch);
  y = ground (arith, h.batch);
  p = ground (arith, h.batch);
  sp = ground (arith, h.batch);
  pc = ground (arith, h.batch);
  bytes_eq = λ i. ground (arith, h.batch);
}

-- The word `v` stands on the stack of `d`, on top of what was there when SP was `s`.
record IsStacked (v s : ℕ) (d : Cpu Ram) : Type 0 where
  plain : IsPlain d
  below : s < 256
  sp : d.regs.sp ≡ u8 (u8 (s + 255) + 255)
  low : d.env.world.bytes (256 + u8 (s + 255)) ≡ u8 v
  high : d.env.world.bytes (256 + s) ≡ hi_byte v

-- The registers but for SP and PC.
pub record SameData (c d : Cpu Ram) : Type 0 where
  pub a : d.regs.a ≡ c.regs.a
  pub x : d.regs.x ≡ c.regs.x
  pub y : d.regs.y ≡ c.regs.y
  pub p : d.regs.p ≡ c.regs.p

push16-IsStacked :
    (v : ℕ) (c : Cpu Ram)
    → IsPlain c
    → IsStacked v c.regs.sp (push16 ram_bus v c).1
      × SameData c (push16 ram_bus v c).1
      × ((push16 ram_bus v c).1.regs.pc ≡ c.regs.pc)
unfolding push16 ◌>>=◌ put_byte
push16-IsStacked v c h =
    let c1 = (push ram_bus (hi_byte v) c).1 in
    let i1 = push-IsPushed (hi_byte v) c h in
    let i2 = push-IsPushed (u8 v) c1 i1.plain in
    let apart : (256 + c.regs.sp == 256 + c1.regs.sp) ≡ false = ground (arith, i1.sp, h.sp_lt) in
    (
      record {
        plain = i2.plain;
        below = h.sp_lt;
        sp = i2.sp ∙ ap (λ s. u8 (s + 255)) i1.sp;
        low =
            ap (λ s. (push ram_bus (u8 v) c1).1.env.world.bytes (256 + s)) (sym i1.sp)
            ∙ i2.bytes_eq (256 + c1.regs.sp)
            ∙ put_byte-same c1.env.world.bytes (256 + c1.regs.sp) (u8 v);
        high =
            i2.bytes_eq (256 + c.regs.sp)
            ∙ ap (λ b. if b then u8 v else c1.env.world.bytes (256 + c.regs.sp)) apart
            ∙ i1.bytes_eq (256 + c.regs.sp)
            ∙ put_byte-same c.env.world.bytes (256 + c.regs.sp) (hi_byte v);
      },
      record { a = i2.a ∙ i1.a; x = i2.x ∙ i1.x; y = i2.y ∙ i1.y; p = i2.p ∙ i1.p },
      i2.pc ∙ i1.pc,
    )

pop16-IsStacked :
    (v s : ℕ) (d : Cpu Ram)
    → v < 65536
    → IsStacked v s d
    → let r = pop16 ram_bus d in
      (r.0 ≡ v) × SameData d r.1 × (r.1.regs.sp ≡ s) × (r.1.regs.pc ≡ d.regs.pc) × IsPlain r.1
unfolding pop16 ◌>>=◌ pure
pop16-IsStacked v s d lv h =
    let q = pop ram_bus d in
    let o1 = pop-IsPopped d h.plain in
    let o2 = pop-IsPopped q.1 o1.plain in
    let back : u8 (d.regs.sp + 1) ≡ u8 (s + 255) = omega (arith, h.sp) in
    let back' : u8 (q.1.regs.sp + 1) ≡ s = omega (arith, o1.sp, h.sp, h.below) in
    let low : q.0 ≡ u8 v =
      pop-value d h.plain
      ∙ ap (λ i. u8 (d.env.world.bytes (256 + i))) back
      ∙ ap u8 h.low
      ∙ omega arith in
    let high : (pop ram_bus q.1).0 ≡ hi_byte v =
      pop-value q.1 o1.plain
      ∙ ap (λ i. u8 (q.1.env.world.bytes (256 + i))) back'
      ∙ ap u8 (o1.bytes_eq (256 + s) ∙ h.high)
      ∙ omega arith in
    (
      ap (λ lo. word lo (pop ram_bus q.1).0) low ∙ ap (word (u8 v)) high ∙ word-bytes v lv,
      record { a = o2.a ∙ o1.a; x = o2.x ∙ o1.x; y = o2.y ∙ o1.y; p = o2.p ∙ o1.p },
      o2.sp ∙ back',
      o2.pc ∙ o1.pc,
      o2.plain,
    )

SameData-trans : {c d e : Cpu Ram} → SameData c d → SameData d e → SameData c e
SameData-trans h k = record { a = k.a ∙ h.a; x = k.x ∙ h.x; y = k.y ∙ h.y; p = k.p ∙ h.p }

IsStill-SameData : {c d : Cpu Ram} → IsStill c d → SameData c d
IsStill-SameData h = record { a = h.a; x = h.x; y = h.y; p = h.p }

IsStill-IsStacked : {v s : ℕ} {c d : Cpu Ram} → IsStill c d → IsStacked v s c → IsStacked v s d
IsStill-IsStacked h k = record {
  plain = h.plain;
  below = k.below;
  sp = h.sp ∙ k.sp;
  low = h.bytes_eq _ ∙ k.low;
  high = h.bytes_eq _ ∙ k.high;
}

-- On a RAM machine without per-cycle ticks and with nothing frozen, pulling a word gives the word
-- that was pushed just before, wherever SP stands and however it wraps around, and SP and the
-- other registers are those from before the push.
pub pop16-push16 :
    (v : ℕ) (c : Cpu Ram)
    → v < 65536
    → IsPlain c
    → let r = pop16 ram_bus (push16 ram_bus v c).1 in
      (r.0 ≡ v) × SameData c r.1 × (r.1.regs.sp ≡ c.regs.sp) × (r.1.regs.pc ≡ c.regs.pc)
pop16-push16 v c lv h =
    let (stacked, data_kept, pc) = push16-IsStacked v c h in
    let (value, data_kept', sp, pc', plain) =
      pop16-IsStacked v c.regs.sp (push16 ram_bus v c).1 lv stacked in
    (value, SameData-trans data_kept data_kept', sp, pc' ∙ pc)

jsr-IsStacked :
    (addr : ℕ) (c : Cpu Ram)
    → IsPlain c
    → IsStacked c.regs.pc c.regs.sp (op_jsr ram_bus addr c).1 × SameData c (op_jsr ram_bus addr c).1
unfolding op_jsr ◌>>=◌ regs on_regs
jsr-IsStacked addr c h =
    let c0 = (idle ram_bus (bit_or 0x100 c.regs.sp) c).1 in
    let s0 = idle-IsStill (bit_or 0x100 c.regs.sp) c h in
    let c1 = (push16 ram_bus c0.regs.pc c0).1 in
    let (k, kept, _) = push16-IsStacked c0.regs.pc c0 s0.plain in
    let s2 = read-IsStill c1.regs.pc c1 k.plain in
    let all = SameData-trans (IsStill-SameData s0) (SameData-trans kept (IsStill-SameData s2)) in
    let st = IsStill-IsStacked s2 k in
    (
      record {
        plain = record { batch = st.plain.batch; thawed = st.plain.thawed; sp_lt = st.plain.sp_lt };
        below = h.sp_lt;
        sp = st.sp ∙ ap (λ s. u8 (u8 (s + 255) + 255)) s0.sp;
        low =
            ap (λ s. (read ram_bus c1.regs.pc c1).1.env.world.bytes (256 + u8 (s + 255)))
              (sym s0.sp)
            ∙ st.low
            ∙ ap u8 s0.pc;
        high =
            ap (λ s. (read ram_bus c1.regs.pc c1).1.env.world.bytes (256 + s)) (sym s0.sp)
            ∙ st.high
            ∙ ap hi_byte s0.pc;
      },
      record { a = all.a; x = all.x; y = all.y; p = all.p },
    )

-- On a RAM machine without per-cycle ticks and with nothing frozen, RTS after JSR goes on behind
-- the call, whatever its target: PC is one more than the address of
-- the last byte of the call, and SP, A, X, Y and the status are those from before the call.
pub op_rts-op_jsr :
    (addr : ℕ) (c : Cpu Ram)
    → c.regs.pc < 65536
    → IsPlain c
    → let d = (op_rts ram_bus (op_jsr ram_bus addr c).1).1 in
      (d.regs.pc ≡ u16 (c.regs.pc + 1)) × (d.regs.sp ≡ c.regs.sp) × SameData c d
unfolding op_rts pull_idles ◌>>=◌ regs on_regs
op_rts-op_jsr addr c lt h =
    let d = (op_jsr ram_bus addr c).1 in
    let (st, kept) = jsr-IsStacked addr c h in
    let e0 = (idle ram_bus d.regs.pc d).1 in
    let s0 = idle-IsStill d.regs.pc d st.plain in
    let e1 = (idle ram_bus (bit_or 0x100 e0.regs.sp) e0).1 in
    let s1 = idle-IsStill (bit_or 0x100 e0.regs.sp) e0 s0.plain in
    let r = pop16 ram_bus e1 in
    let (value, kept', sp, _, plain) =
      pop16-IsStacked c.regs.pc c.regs.sp e1 lt (IsStill-IsStacked s1 (IsStill-IsStacked s0 st)) in
    let s2 = idle-IsStill r.0 r.1 plain in
    let idles = SameData-trans (IsStill-SameData s0) (IsStill-SameData s1) in
    let all =
      SameData-trans kept (SameData-trans idles (SameData-trans kept' (IsStill-SameData s2))) in
    (ap (λ v. u16 (v + 1)) value, s2.sp ∙ sp, record { a = all.a; x = all.x; y = all.y; p = all.p })
