-- ===== src/W65816/Moves.antt =====
-- MVN and MVP: the loop ends, and where it leaves the registers.
use chippy.Prelude.{
  ℕ, zero, suc, ◌+◌, ◌*◌, ◌%◌, ◌<◌, ◌≡◌, ◌∙◌, ap, refl, Bool, true, false, u16, ◌==◌, arith,
  if◌then◌else◌, subst, sym,
}
use native.Mathlib.Nat.{suc-mul}
use chippy.Memory.Stack.{word-bytes}
use chippy.W65816.State.{Bus24, Cpu, ◌>>=◌, pure, regs, on_regs, on_pins}
use chippy.W65816.Width.{a16, x16, y16, set_a16, set_x16, set_y16}
use chippy.W65816.Access.{pred16, read24, write24, fetch816}
use chippy.W65816.Control.{move_byte, until_done, block_loop, block_move}

-- A number as a function by clauses of the count, so that a sum of steps is linear.
times : ℕ → ℕ → ℕ
times zero step = 0
times (suc n) step = times n step + step

times_lem : (n step : ℕ) → times n step ≡ n * step
unfolding times
times_lem zero step = omega arith
times_lem (suc n) step = omega (arith, times_lem n step, suc-mul n step)

module _ {W : Type 0} (bus : Bus24 W) (dst src step : ℕ) where
  -- C, X and Y behind one byte.
  move_byte-regs :
      (c : Cpu W)
      → let d = move_byte bus dst src step c in
        (d.0 ≡ (a16 c.regs == 0))
        × (a16 d.1.regs ≡ pred16 (a16 c.regs))
        × (x16 d.1.regs ≡ u16 (x16 c.regs + step))
        × (y16 d.1.regs ≡ u16 (y16 c.regs + step))
  unfolding move_byte ◌>>=◌ pure regs on_regs read24 write24 a16 x16 y16 set_a16 set_x16 set_y16
      pred16
  move_byte-regs c =
      (refl, word-bytes _ (omega arith), word-bytes _ (omega arith), word-bytes _ (omega arith))

  -- The registers behind `n` more bytes than one.
  record Moved (n : ℕ) (c d : Cpu W) : Type 0 where
    count : a16 d.regs ≡ 0xFFFF
    from : x16 d.regs ≡ u16 (x16 c.regs + times (suc n) step)
    to : y16 d.regs ≡ u16 (y16 c.regs + times (suc n) step)

  Ends : ℕ → Cpu W → Bool × Cpu W → Type 0
  Ends n c d = (d.0 ≡ true) × Moved n c d.1

  block_loop-Moved :
      (fuel n : ℕ) (c : Cpu W)
      → a16 c.regs ≡ n
      → n < fuel
      → n < 65536
      → ((block_loop bus fuel dst src step c).0 ≡ true)
        × Moved n c (block_loop bus fuel dst src step c).1
  unfolding block_loop until_done ◌>>=◌ times pred16 Ends pure
  block_loop-Moved zero n c e lt small = absurd (omega arith)
  block_loop-Moved (suc fuel) zero c e lt small =
      let d = move_byte bus dst src step c in
      let m = move_byte-regs c in
      let done : d.0 ≡ true = ground (arith, m.0, e) in
      subst (λ b. Ends zero c (until_done bus (block_loop bus fuel dst src step) b d.1)) (sym done)
        (
          refl,
          record {
            count = omega (arith, e, m.1);
            from = omega (arith, m.2);
            to = omega (arith, m.3);
          },
        )
  block_loop-Moved (suc fuel) (suc n) c e lt small =
      let d = move_byte bus dst src step c in
      let m = move_byte-regs c in
      let more : d.0 ≡ false = ground (arith, m.0, e) in
      let (ends, rest) =
        block_loop-Moved fuel n d.1 (omega (arith, e, m.1)) (omega arith) (omega arith) in
      subst (λ b. Ends (suc n) c (until_done bus (block_loop bus fuel dst src step) b d.1))
        (sym more)
        (
          ends,
          record {
            count = rest.count;
            from = omega (arith, rest.from, m.2);
            to = omega (arith, rest.to, m.3);
          },
        )

-- MVN and MVP end: for a 16-bit C the loop stops by its own test, the instruction takes 7 cycles a byte for C + 1 bytes, leaves 0xFFFF in C, and advances X and Y by one step a
-- byte modulo 2 ^ 16.
pub block_move-ends :
    {W : Type 0} (bus : Bus24 W) (step : ℕ) (c : Cpu W)
    → a16 c.regs < 65536
    → let d = block_move bus step c in
      let n = a16 c.regs + 1 in
      (d.0 ≡ 7 * n)
      × (a16 d.1.regs ≡ 0xFFFF)
      × (x16 d.1.regs ≡ (x16 c.regs + n * step) % 65536)
      × (y16 d.1.regs ≡ (y16 c.regs + n * step) % 65536)
unfolding block_move ◌>>=◌ pure regs on_regs fetch816 read24 on_pins Ends a16 x16 y16
block_move-ends bus step c lt =
    let n = a16 c.regs in
    let one : suc n ≡ n + 1 = omega arith in
    let steps : times (suc n) step ≡ (n + 1) * step =
      times_lem (suc n) step ∙ ap (λ k. k * step) one in
    let (ends, m) = block_loop-Moved bus _ _ step 0x10000 n _ refl lt lt in
    (
      ap (λ b. if b then 7 * (n + 1) else 0) ends,
      m.count,
      m.from ∙ ap (λ k. u16 (x16 c.regs + k)) steps,
      m.to ∙ ap (λ k. u16 (y16 c.regs + k)) steps,
    )
