-- ===== src/W65816/Counted/Rules.antt =====
-- What an action spends in bus accesses, and how that adds up to the cycles that it returns.
use chippy.Prelude.{ℕ, ◌+◌, ◌≡◌, ap, refl, ◌∙◌, arith, not, ◌==◌, bit_and}
use chippy.Cpu.State.{Env}
use chippy.W65816.State.{Bus24, Regs, Cpu, M, Pins, ◌>>=◌, pure, regs, on_regs, on_pins, through}
use chippy.W65816.Width.{m_wide, x_wide}
use chippy.W65816.Access.{read24, write24}
use chippy.W65816.Modes.{dl_set}
use chippy.W65816.Kept.{Kept, m_wide-Kept, x_wide-Kept, Calm}

-- Each access advances the count by one.
pub record CountsOn {W : Type 0} (bus : Bus24 W) (count : Env W → ℕ) : Type 0 where
  pub read : (addr : ℕ) (e : Env W) → count (bus.read24 addr e).1 ≡ count e + 1
  pub write : (addr v : ℕ) (e : Env W) → count (bus.write24 addr v e) ≡ count e + 1

-- Registers that lead to the same number of accesses.
pub record Same (r v : Regs) : Type 0 where
  pub dl : dl_set r ≡ dl_set v
  pub m : m_wide r ≡ m_wide v
  pub x : x_wide r ≡ x_wide v
  pub e : r.e ≡ v.e

pub Same-refl : (r : Regs) → Same r r
Same-refl r = record { dl = refl; m = refl; x = refl; e = refl }

pub Same-trans : {r s t : Regs} → Same r s → Same s t → Same r t
Same-trans h j = record { dl = h.dl ∙ j.dl; m = h.m ∙ j.m; x = h.x ∙ j.x; e = h.e ∙ j.e }

-- A function of the registers that keeps what the accesses depend on.
abbrev pub Steady : (Regs → Regs) → Type 0
Steady f = (r : Regs) → Same (f r) r

pub Kept-Same : {r v : Regs} → Kept r v → Same r v
unfolding dl_set
Kept-Same h = record {
  dl = ap (λ d. not (bit_and d 0xFF == 0)) h.d;
  m = m_wide-Kept _ _ h.e h.m_bit;
  x = x_wide-Kept _ _ h.e h.x_bit;
  e = h.e;
}

pub Calm-Steady : (f : Regs → Regs) → Calm f → Steady f
Calm-Steady f h r = Kept-Same (h r)

module _ {W : Type 0} (count : Env W → ℕ) where
  -- From registers like `v`, the action makes `n` accesses and leaves registers like `v`.
  pub record Spends {A : Type 0} (v : Regs) (n : ℕ) (m : M W A) : Type 0 where
    pub at :
        (c : Cpu W) → Same c.regs v → (count (m c).1.env ≡ count c.env + n) × Same (m c).1.regs v

  -- From registers like `v`, with `s` accesses before it, the accesses make up the cost of the
  -- result.
  pub record Pays {A : Type 0} (v : Regs) (s : ℕ) (cost : A → ℕ) (m : M W A) : Type 0 where
    pub at : (c : Cpu W) → Same c.regs v → count c.env + cost (m c).0 ≡ count (m c).1.env + s

module _ {W : Type 0} {count : Env W → ℕ} {v : Regs} where
  pub Pays-pure :
      {A : Type 0} {s : ℕ} {cost : A → ℕ} (a : A) → cost a ≡ s → Pays count v s cost (pure a)
  unfolding pure
  Pays-pure a e = record { at = λ c h. ap (λ n. count c.env + n) e }

  pub Pays-bind :
      {A B : Type 0} {n s : ℕ} {cost : B → ℕ} {m : M W A} {f : A → M W B}
      → Spends count v n m
      → ((a : A) → Pays count v (n + s) cost (f a))
      → Pays count v s cost (m >>= f)
  unfolding ◌>>=◌
  Pays-bind {m = m} hm hf = record {
    at = λ c h. let (e, h') = hm.at c h in omega (arith, e, (hf (m c).0).at (m c).1 h');
  }

  pub Pays-regs :
      {B : Type 0} {s : ℕ} {cost : B → ℕ} {f : Regs → M W B}
      → ((r : Regs) → Same r v → Pays count v s cost (f r))
      → Pays count v s cost (regs >>= f)
  unfolding ◌>>=◌ regs
  Pays-regs hf = record { at = λ c h. (hf c.regs h).at c h }

  -- Registers that change in any way.
  pub Pays-change :
      {B : Type 0} {s : ℕ} {cost : B → ℕ} (g : Regs → Regs) (f : Unit {0} → M W B)
      → ((w : Regs) → Pays count w s cost (f tt))
      → Pays count v s cost (on_regs g >>= f)
  unfolding ◌>>=◌ on_regs
  Pays-change g f hf = record {
    at = λ c h. (hf (g c.regs)).at (record c { regs = g c.regs }) (Same-refl (g c.regs));
  }

  -- The cost of an action whose result the rest adds to.
  pub Pays-then :
      {A B : Type 0} {s : ℕ} {cost : A → ℕ} {cost' : B → ℕ} {m : M W A} {f : A → M W B}
      → Pays count v s cost m
      → ((a : A) (w : Regs) → Pays count w (cost a) cost' (f a))
      → Pays count v s cost' (m >>= f)
  unfolding ◌>>=◌
  Pays-then {m = m} hm hf = record {
    at = λ c h.
        omega (arith, hm.at c h, (hf (m c).0 (m c).1.regs).at (m c).1 (Same-refl (m c).1.regs));
  }

  -- The same, where `k` accesses of the rest are in the cost of the first action.
  pub Pays-ahead :
      {A B : Type 0} (k : ℕ) {s : ℕ} {cost : A → ℕ} {cost' : B → ℕ} {m : M W A} {f : A → M W B}
      → Pays count v (k + s) cost m
      → ((a : A) (w : Regs) → Pays count w (cost a) (λ b. cost' b + k) (f a))
      → Pays count v s cost' (m >>= f)
  unfolding ◌>>=◌
  Pays-ahead k {m = m} hm hf = record {
    at = λ c h.
        omega (arith, hm.at c h, (hf (m c).0 (m c).1.regs).at (m c).1 (Same-refl (m c).1.regs));
  }

  -- An action whose result costs the same whatever it is, and a change of registers, at the end.
  pub Pays-last :
      {A : Type 0} {n s : ℕ} {cost : A → ℕ} {m : M W A}
      → Spends count v n m
      → ((a : A) → cost a ≡ n + s)
      → Pays count v s cost m
  Pays-last {m = m} hm e = record { at = λ c h. omega (arith, (hm.at c h).0, e (m c).0) }

  pub Pays-on_regs :
      {s : ℕ} {cost : Unit {0} → ℕ} (f : Regs → Regs)
      → cost tt ≡ s
      → Pays count v s cost (on_regs f)
  unfolding on_regs
  Pays-on_regs f e = record { at = λ c h. ap (λ n. count c.env + n) e }

  pub Spends-pure : {A : Type 0} (a : A) → Spends count v 0 (pure a)
  unfolding pure
  Spends-pure a = record { at = λ c h. (omega arith, h) }

  pub Spends-regs : Spends count v 0 regs
  unfolding regs
  Spends-regs = record { at = λ c h. (omega arith, h) }

  pub Spends-on_pins : (f : Pins → Pins) → Spends count v 0 (on_pins f)
  unfolding on_pins
  Spends-on_pins f = record { at = λ c h. (omega arith, h) }

  pub Spends-on_regs : (f : Regs → Regs) → Steady f → Spends count v 0 (on_regs f)
  unfolding on_regs
  Spends-on_regs f keeps = record { at = λ c h. (omega arith, Same-trans (keeps c.regs) h) }

  pub Spends-through :
      {A : Type 0} (f : Regs → A × Regs) → Steady (λ r. (f r).1) → Spends count v 0 (through f)
  unfolding through
  Spends-through f keeps = record { at = λ c h. (omega arith, Same-trans (keeps c.regs) h) }

  pub Spends-bind :
      {A B : Type 0} {n k : ℕ} {m : M W A} {f : A → M W B}
      → Spends count v n m
      → ((a : A) → Spends count v k (f a))
      → Spends count v (n + k) (m >>= f)
  unfolding ◌>>=◌
  Spends-bind {m = m} hm hf = record {
    at = λ c h.
        let (e, h') = hm.at c h in
        let (e', h'') = (hf (m c).0).at (m c).1 h' in (omega (arith, e, e'), h'');
  }

module _ {W : Type 0} {count : Env W → ℕ} {v : Regs} (bus : Bus24 W)
    (counted : CountsOn bus count) where
  pub Spends-read24 : (addr : ℕ) → Spends count v 1 (read24 bus addr)
  unfolding read24
  Spends-read24 addr = record { at = λ c h. (counted.read _ c.env, h) }

  pub Spends-write24 : (addr b : ℕ) → Spends count v 1 (write24 bus addr b)
  unfolding write24
  Spends-write24 addr b = record { at = λ c h. (counted.write _ b c.env, h) }
