-- ===== src/Cpu/Cycles/Counts.antt =====
-- Actions that take a fixed number of ticks beyond their extra cycles, and the rules to build
-- them.
use chippy.Prelude.{
  ℕ, suc, ◌+◌, ◌≡◌, ◌∙◌, ap, sym, refl, Bool, true, false, Option, none, some, arith, if◌then◌else◌,
}
use native.Mathlib.Nat.{zero-add}
use native.Mathlib.Numerals.{one-add}
use mathlib.Core.Path.{subst}
use chippy.Cpu.State.{
  M, Cpu, Env, Lines, Regs, Latches, Variant, nes, ◌>>=◌, pure, gets, maybe, regs, variant, on_regs,
  on_env, on_lines, on_latches, add_cycles, add_master_clock, instr_cycle, set_halted,
  set_stopped_by_stp,
}

-- The per-cycle path is on, which SetBus decides for the NES variant alone.
pub record IsPerCycle {W : Type 0} (c : Cpu W) : Type 0 where
  pub per_cycle : c.nes_cycle ≡ true
  pub is_nes : c.variant ≡ nes

-- The extra cycles, where `w` says that they are held against the ticks.
abbrev pub extra_part : Bool → ℕ → ℕ
extra_part true extra = extra
extra_part false extra = 0

-- From `c` to `d` the ticks grew by `n`, or by `n` more than the extra cycles did.
pub record Took {W : Type 0} (w : Bool) (n : ℕ) (c d : Cpu W) : Type 0 where
  pub per_cycle : d.nes_cycle ≡ true
  pub is_nes : d.variant ≡ nes
  pub ticks :
      d.clock.instr_cycles + extra_part w c.clock.extra_cycles
      ≡ c.clock.instr_cycles + n + extra_part w d.clock.extra_cycles

pub record Counts {W A : Type 0} (w : Bool) (n : ℕ) (m : M W A) : Type 0 where
  pub at : (c : Cpu W) → IsPerCycle c → Took w n c (m c).1

two-add : (n : ℕ) → 2 + n ≡ suc (suc n)
two-add n = omega arith

module _ {W A : Type 0} {w : Bool} where
  -- An action that leaves the two counters and the mode alone.
  pub Counts-still :
      (m : M W A)
      → ((c : Cpu W)
          → ((m c).1.nes_cycle ≡ c.nes_cycle)
            × ((m c).1.variant ≡ c.variant)
            × ((m c).1.clock.instr_cycles ≡ c.clock.instr_cycles)
            × ((m c).1.clock.extra_cycles ≡ c.clock.extra_cycles))
      → Counts w 0 m
  Counts-still m same = record {
    at = λ c h. record {
      per_cycle = (same c).0 ∙ h.per_cycle;
      is_nes = (same c).1 ∙ h.is_nes;
      ticks = omega (arith, (same c).2, ap (extra_part w) ((same c).3));
    };
  }

  pub Counts-pure : (a : A) → Counts {W = W} w 0 (pure a)
  unfolding pure
  Counts-pure a = Counts-still (pure a) (λ c. (refl, refl, refl, refl))

  pub Counts-gets : (f : Cpu W → A) → Counts w 0 (gets f)
  unfolding gets
  Counts-gets f = Counts-still (gets f) (λ c. (refl, refl, refl, refl))

module _ {W : Type 0} {w : Bool} where
  pub Counts-regs : Counts {W = W} w 0 regs
  unfolding regs
  Counts-regs = Counts-still regs (λ c. (refl, refl, refl, refl))

  pub Counts-on_regs : (f : Regs → Regs) → Counts {W = W} w 0 (on_regs f)
  unfolding on_regs
  Counts-on_regs f = Counts-still (on_regs f) (λ c. (refl, refl, refl, refl))

  pub Counts-on_env : (f : Env W → Env W) → Counts w 0 (on_env f)
  unfolding on_env
  Counts-on_env f = Counts-still (on_env f) (λ c. (refl, refl, refl, refl))

  pub Counts-on_lines : (f : Lines → Lines) → Counts {W = W} w 0 (on_lines f)
  unfolding on_lines
  Counts-on_lines f = Counts-still (on_lines f) (λ c. (refl, refl, refl, refl))

  pub Counts-on_latches : (f : Latches → Latches) → Counts {W = W} w 0 (on_latches f)
  unfolding on_latches
  Counts-on_latches f = Counts-still (on_latches f) (λ c. (refl, refl, refl, refl))

  pub Counts-add_cycles : (n : ℕ) → Counts {W = W} w 0 (add_cycles n)
  unfolding add_cycles
  Counts-add_cycles n = Counts-still (add_cycles n) (λ c. (refl, refl, refl, refl))

  pub Counts-add_master_clock : (n : ℕ) → Counts {W = W} w 0 (add_master_clock n)
  unfolding add_master_clock
  Counts-add_master_clock n = Counts-still (add_master_clock n) (λ c. (refl, refl, refl, refl))

  pub Counts-set_halted : (b : Bool) → Counts {W = W} w 0 (set_halted b)
  unfolding set_halted
  Counts-set_halted b = Counts-still (set_halted b) (λ c. (refl, refl, refl, refl))

  pub Counts-set_stopped_by_stp : (b : Bool) → Counts {W = W} w 0 (set_stopped_by_stp b)
  unfolding set_stopped_by_stp
  Counts-set_stopped_by_stp b = Counts-still (set_stopped_by_stp b) (λ c. (refl, refl, refl, refl))

  pub Counts-instr_cycle : Counts {W = W} w 1 instr_cycle
  unfolding instr_cycle
  Counts-instr_cycle = record {
    at = λ c h. record { per_cycle = h.per_cycle; is_nes = h.is_nes; ticks = omega arith };
  }

module _ {W A B : Type 0} {w : Bool} where
  pub Counts-bind :
      (k n : ℕ) (m : M W A) (f : A → M W B)
      → Counts w k m
      → ((a : A) → Counts w n (f a))
      → Counts w (k + n) (m >>= f)
  unfolding ◌>>=◌
  Counts-bind k n m f first rest = record {
    at = λ c h.
        let s = first.at c h in
        let t = (rest (m c).0).at (m c).1 (record { per_cycle = s.per_cycle; is_nes = s.is_nes }) in
        record {
          per_cycle = t.per_cycle;
          is_nes = t.is_nes;
          ticks = omega (arith, s.ticks, t.ticks);
        };
  }

  pub Counts-bind0 :
      (n : ℕ) (m : M W A) (f : A → M W B)
      → Counts w 0 m
      → ((a : A) → Counts w n (f a))
      → Counts w n (m >>= f)
  Counts-bind0 n m f first rest = rw zero-add at (Counts-bind 0 n m f first rest)

  pub Counts-bind1 :
      (n : ℕ) (m : M W A) (f : A → M W B)
      → Counts w 1 m
      → ((a : A) → Counts w n (f a))
      → Counts w (suc n) (m >>= f)
  Counts-bind1 n m f first rest = rw one-add at (Counts-bind 1 n m f first rest)

  pub Counts-bind2 :
      (n : ℕ) (m : M W A) (f : A → M W B)
      → Counts w 2 m
      → ((a : A) → Counts w n (f a))
      → Counts w (suc (suc n)) (m >>= f)
  Counts-bind2 n m f first rest = rw two-add at (Counts-bind 2 n m f first rest)

module _ {W A : Type 0} {w : Bool} where
  -- In per-cycle mode the test of the mode, or of the variant, goes one way.
  pub Counts-per_cycle :
      (n : ℕ) (f : Bool → M W A) → Counts w n (f true) → Counts w n (gets (λ c. c.nes_cycle) >>= f)
  unfolding ◌>>=◌ gets
  Counts-per_cycle n f h = record {
    at = λ c p. subst (λ b. Took w n c (f b c).1) (sym p.per_cycle) (h.at c p);
  }

  pub Counts-variant :
      (n : ℕ) (f : Variant → M W A) → Counts w n (f nes) → Counts w n (variant >>= f)
  unfolding ◌>>=◌ variant
  Counts-variant n f h = record {
    at = λ c p. subst (λ v. Took w n c (f v c).1) (sym p.is_nes) (h.at c p);
  }

  pub Counts-if :
      (n : ℕ) (b : Bool) (m k : M W A)
      → Counts w n m
      → Counts w n k
      → Counts w n (if b then m else k)
  Counts-if n true m k h j = h
  Counts-if n false m k h j = j

  -- Branches of different counts.
  pub Counts-either :
      (b : Bool) (j k : ℕ) (m p : M W A)
      → Counts w j m
      → Counts w k p
      → Counts w (if b then j else k) (if b then m else p)
  Counts-either true j k m p h i = h
  Counts-either false j k m p h i = i

  pub Counts-maybe :
      {B : Type 0} (n : ℕ) (o : Option B) (m : M W A) (f : B → M W A)
      → Counts w n m
      → ((b : B) → Counts w n (f b))
      → Counts w n (maybe o m f)
  unfolding maybe
  Counts-maybe n none m f h j = h
  Counts-maybe n (some b) m f h j = j b

pub ruleset counts_rules = (
  Counts-pure, Counts-gets, Counts-regs, Counts-on_regs, Counts-on_env, Counts-on_lines,
  Counts-on_latches, Counts-add_cycles, Counts-add_master_clock, Counts-set_halted,
  Counts-set_stopped_by_stp, Counts-instr_cycle, Counts-bind0, Counts-bind1, Counts-bind2,
  Counts-variant, Counts-if, Counts-maybe,
)
