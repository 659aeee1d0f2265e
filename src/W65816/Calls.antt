-- ===== src/W65816/Calls.antt =====
-- JSL and RTL in native mode, on a memory that keeps what is written.
use chippy.Prelude.{
  ℕ, ◌+◌, ◌%◌, ◌<◌, ◌≡◌, ◌∙◌, ap, refl, false, u8, u16, hi_byte, word, ◌==◌, arith, if◌then◌else◌,
}
use chippy.Memory.Stack.{word-bytes}
use chippy.W65816.State.{Bus24, Regs, Cpu, ◌>>=◌, pure, regs, on_regs, on_pins}
use chippy.W65816.Width.{sp16}
use chippy.W65816.Access.{
  pred16, read24, write24, fetch816, read_data, write_data, pin_data, pin_none, set_pins, io816,
}
use chippy.W65816.Stack.{
  sp_push_new, sp_pull_new, sp_push16_new, sp_pull16_new, sp_set_raw, sp_reforce, sp_reforce_regs,
}
use chippy.W65816.Control.{set_pc}
use chippy.W65816.Inline.{jsl_long, op_rtl}

-- A memory of 16 MB as the 24-bit bus.
abbrev pub flat : Bus24 (ℕ → ℕ)
flat = record {
  read24 = λ a env. (env.world a, env);
  write24 = λ a v env. record env { world = λ b. if b == a then v else env.world b };
}

-- The byte that the `n`th pull from now on reads.
abbrev top : ℕ → Cpu (ℕ → ℕ) → ℕ
top n c = c.env.world (u16 (sp16 c.regs + n))

hit : (a k v x : ℕ) → a ≡ k → (if a == k then v else x) ≡ v
hit a k v x e = ground (arith, e)

miss : (a k v x : ℕ) → (a == k) ≡ false → (if a == k then v else x) ≡ x
miss a k v x e = ground (arith, e)

push_new-top :
    (b : ℕ) (c : Cpu (ℕ → ℕ))
    → sp16 c.regs < 65536
    → let d = (sp_push_new flat b c).1 in
      (sp16 d.regs ≡ pred16 (sp16 c.regs))
      × (top 1 d ≡ b)
      × (top 2 d ≡ top 1 c)
      × (top 3 d ≡ top 2 c)
unfolding sp_push_new sp_set_raw ◌>>=◌ regs on_regs write_data write24 pin_data on_pins pred16
push_new-top b c lt =
    let d = (sp_push_new flat b c).1 in
    let s = sp16 c.regs in
    let s' = sp16 d.regs in
    let w = c.env.world in
    let sp : s' ≡ pred16 s = unfold sp16 in word-bytes _ (omega arith) in
    (
      sp,
      hit (u16 (s' + 1)) (s % 0x1000000) b (w (u16 (s' + 1))) (omega (arith, sp, lt)),
      miss (u16 (s' + 2)) (s % 0x1000000) b (w (u16 (s' + 2))) (ground (arith, sp, lt))
          ∙ ap w (omega (arith, sp, lt)),
      miss (u16 (s' + 3)) (s % 0x1000000) b (w (u16 (s' + 3))) (ground (arith, sp, lt))
          ∙ ap w (omega (arith, sp, lt)),
    )

push_new-rest :
    (b : ℕ) (c : Cpu (ℕ → ℕ))
    → let d = (sp_push_new flat b c).1 in (d.regs.pc ≡ c.regs.pc) × (d.regs.e ≡ c.regs.e)
unfolding sp_push_new sp_set_raw ◌>>=◌ regs on_regs write_data write24 pin_data on_pins
push_new-rest b c = (refl, refl)

pull_new-top :
    (c : Cpu (ℕ → ℕ))
    → let d = sp_pull_new flat c in
      (d.0 ≡ top 1 c)
      × (sp16 d.1.regs ≡ u16 (sp16 c.regs + 1))
      × (top 1 d.1 ≡ top 2 c)
      × (top 2 d.1 ≡ top 3 c)
unfolding sp_pull_new sp_set_raw ◌>>=◌ regs on_regs read_data read24 pin_data on_pins
pull_new-top c =
    let d = sp_pull_new flat c in
    let s = sp16 c.regs in
    let w = c.env.world in
    let sp : sp16 d.1.regs ≡ u16 (s + 1) = unfold sp16 in word-bytes _ (omega arith) in
    (ap w (omega (arith, sp)), sp, ap w (omega (arith, sp)), ap w (omega (arith, sp)))

-- The pointer forced again in native mode is the pointer.
reforced :
    (r : Regs) (pbr pc : ℕ)
    → r.e ≡ false
    → sp16 (record (sp_reforce_regs r) { pbr = pbr; pc = pc }) ≡ sp16 r
unfolding sp16 sp_reforce_regs
reforced r pbr pc native = ap (λ e. word r.sp (if e then 1 else r.sp_hi)) native

jsl_long-top :
    (c : Cpu (ℕ → ℕ))
    → c.regs.e ≡ false
    → sp16 c.regs < 65536
    → let d = (jsl_long flat c).1 in
      let ret = u16 (c.regs.pc + 2) in
      (sp16 d.regs ≡ u16 (sp16 c.regs + 65533))
      × (top 1 d ≡ u8 ret)
      × (top 2 d ≡ hi_byte ret)
      × (top 3 d ≡ c.regs.pbr)
      × (d.regs.e ≡ false)
unfolding jsl_long fetch816 read24 ◌>>=◌ regs on_regs pure on_pins pin_none set_pins sp_push16_new
    sp_reforce sp16 pred16 sp_reforce_regs sp_push_new
jsl_long-top c native lt =
    let c2 : Cpu (ℕ → ℕ) = (fetch816 flat (fetch816 flat c).1).1 in
    let c3 : Cpu (ℕ → ℕ) = (sp_push_new flat c.regs.pbr c2).1 in
    let c4 : Cpu (ℕ → ℕ) =
      (fetch816 flat (record c3 { pins = record (c3.pins) { bus_pins = 0 } })).1 in
    let ret = pred16 c4.regs.pc in
    let c5 : Cpu (ℕ → ℕ) = (sp_push_new flat (hi_byte ret) c4).1 in
    let c6 : Cpu (ℕ → ℕ) = (sp_push_new flat (u8 ret) c5).1 in
    let p3 = push_new-top c.regs.pbr c2 lt in
    let k3 = push_new-rest c.regs.pbr c2 in
    let p5 = push_new-top (hi_byte ret) c4 (omega (arith, p3)) in
    let k5 = push_new-rest (hi_byte ret) c4 in
    let p6 = push_new-top (u8 ret) c5 (omega (arith, p5)) in
    let k6 = push_new-rest (u8 ret) c5 in
    let e6 : c6.regs.e ≡ false = k6.1 ∙ k5.1 ∙ k3.1 ∙ native in
    let d = (jsl_long flat c).1 in
    let spd : sp16 d.regs ≡ sp16 c6.regs = reforced c6.regs d.regs.pbr d.regs.pc e6 in
    let w = c6.env.world in
    let back : ret ≡ u16 (c.regs.pc + 2) = omega (arith, k3) in
    (
      spd ∙ omega (arith, p3, p5, p6),
      ap (λ s. w (u16 (s + 1))) spd ∙ p6.1 ∙ ap u8 back,
      ap (λ s. w (u16 (s + 2))) spd ∙ p6.2 ∙ p5.1 ∙ ap hi_byte back,
      ap (λ s. w (u16 (s + 3))) spd ∙ p6.3 ∙ p5.2 ∙ p3.1,
      e6,
    )

op_rtl-top :
    (c : Cpu (ℕ → ℕ))
    → c.regs.e ≡ false
    → let d = (op_rtl flat c).1 in
      (d.regs.pc ≡ u16 (word (top 1 c) (top 2 c) + 1))
      × (d.regs.pbr ≡ top 3 c)
      × (sp16 d.regs ≡ u16 (sp16 c.regs + 3))
unfolding op_rtl io816 read24 ◌>>=◌ regs on_regs pure on_pins pin_none set_pins sp_pull16_new
    sp_reforce set_pc sp_pull_new sp_set_raw sp_reforce_regs read_data pin_data
op_rtl-top c native =
    let c2 : Cpu (ℕ → ℕ) = (io816 flat (io816 flat c).1).1 in
    let d1 = sp_pull_new flat c2 in
    let d2 = sp_pull_new flat d1.1 in
    let d3 = sp_pull_new flat d2.1 in
    let p1 = pull_new-top c2 in
    let p2 = pull_new-top d1.1 in
    let p3 = pull_new-top d2.1 in
    let d = (op_rtl flat c).1 in
    let low : d2.0 ≡ top 2 c = p2.0 ∙ p1.2 in
    (
      ap (λ b. u16 (word b d2.0 + 1)) p1.0 ∙ ap (λ b. u16 (word (top 1 c) b + 1)) low,
      p3.0 ∙ p2.2 ∙ p1.3,
      reforced d3.1.regs d3.0 d.regs.pc native ∙ p3.1 ∙ omega (arith, p2, p1),
    )

-- What a subroutine that runs from `c` to `d` leaves as it was: native mode, the stack pointer and
-- the three bytes of the return address.
pub record IsBalanced (c d : Cpu (ℕ → ℕ)) : Type 0 where
  pub mode : d.regs.e ≡ c.regs.e
  pub pointer : sp16 d.regs ≡ sp16 c.regs
  pub low : top 1 d ≡ top 1 c
  pub high : top 2 d ≡ top 2 c
  pub bank : top 3 d ≡ top 3 c

-- The opcode fetch of the RTL is such a run.
pub fetch816-IsBalanced : (c : Cpu (ℕ → ℕ)) → IsBalanced c (fetch816 flat c).1
unfolding fetch816 read24 ◌>>=◌ regs on_regs pure on_pins set_pins sp16
fetch816-IsBalanced c = record { mode = refl; pointer = refl; low = refl; high = refl; bank = refl }

-- In native mode, on a memory of 16 MB: from behind the opcode of a JSL, RTL after a subroutine that
-- leaves the mode, the stack pointer and its three return bytes as they were goes to the instruction
-- after the JSL, in the JSL's program bank, with the stack pointer of before the JSL. The pointer may
-- wrap around at the end of bank 0 on the way.
pub op_rtl-jsl_long :
    (c d : Cpu (ℕ → ℕ))
    → c.regs.e ≡ false
    → sp16 c.regs < 65536
    → IsBalanced (jsl_long flat c).1 d
    → let r = (op_rtl flat d).1.regs in
      (r.pc ≡ u16 (c.regs.pc + 3)) × (r.pbr ≡ c.regs.pbr) × (sp16 r ≡ sp16 c.regs)
op_rtl-jsl_long c d native lt h =
    let m = (jsl_long flat c).1 in
    let j = jsl_long-top c native lt in
    let r = op_rtl-top d (h.mode ∙ j.4) in
    let ret = u16 (c.regs.pc + 2) in
    let whole : word (u8 ret) (hi_byte ret) ≡ ret = word-bytes ret (omega arith) in
    (
      r.0
          ∙ ap (λ b. u16 (word b (top 2 d) + 1)) (h.low ∙ j.1)
          ∙ ap (λ b. u16 (word (u8 ret) b + 1)) (h.high ∙ j.2)
          ∙ ap (λ a. u16 (a + 1)) whole
          ∙ omega arith,
      r.1 ∙ h.bank ∙ j.3,
      r.2 ∙ omega (arith, h.pointer, j, lt),
    )
