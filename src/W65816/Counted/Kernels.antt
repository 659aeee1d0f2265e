-- ===== src/W65816/Counted/Kernels.antt =====
-- The memory wrappers: the cycles of an instruction that goes through one are its accesses.
use chippy.Prelude.{
  ℕ, ◌+◌, ◌*◌, ◌≡◌, ◌∙◌, ap, refl, Bool, true, false, not, ◌&&◌, ◌||◌, ◌==◌, if◌then◌else◌, subst,
  arith,
}
use chippy.Cpu.State.{Env}
use chippy.W65816.State.{Bus24, Regs, M, ◌>>=◌, ◌>>◌, pure, regs}
use chippy.W65816.Width.{m_wide, x_wide}
use chippy.W65816.Access.{pin_none, read24, write24, set_pins}
use chippy.W65816.Modes.{Ea, b2i, cross_load, cross_store, when, read_ea, write_ea}
use chippy.W65816.Resolve.{Mode}
use chippy.W65816.Kernels.{
  Rmw, index_io, read_operand, write_operand, acc_read, idx_read, acc_write, idx_write, modify8,
  rmw_bytes, rmw_mem,
}
use chippy.W65816.Cases.{via}
use chippy.W65816.Counted.Rules.{
  CountsOn, Same, Steady, Calm-Steady, Spends, Spends-pure, Spends-regs, Spends-on_regs,
  Spends-through, Spends-bind, Spends-read24, Spends-write24, Pays, Pays-pure, Pays-bind, Pays-regs,
  Pays-then,
}
use chippy.W65816.Counted.Access.{
  read_data-Spends, write_data-Spends, set_pins-Spends, pin_none-Spends, when-Spends,
}
use chippy.W65816.Counted.Modes.{ModePays}
use chippy.W65816.Counted.Sums.{CalmRmw}

cross_load-Same : (e : Ea) {r v : Regs} → Same r v → cross_load e r ≡ cross_load e v
unfolding cross_load
cross_load-Same e h = ap (λ b. if e.idx && (b || e.cross) then 1 else 0) h.x

-- A test of a number that is 0 or 1.
bit : Bool → ℕ
bit b = if b then 1 else 0

nonzero_bit : (b : Bool) → bit (not (bit b == 0)) ≡ bit b
unfolding bit
nonzero_bit true = refl
nonzero_bit false = refl

nonzero_bit_or : (b : Bool) → bit (not (bit b == 0) || false) ≡ bit b
unfolding bit
nonzero_bit_or true = refl
nonzero_bit_or false = refl

load_bit : (e : Ea) (r : Regs) → bit (not (cross_load e r == 0)) ≡ cross_load e r
unfolding cross_load bit
load_bit e r = nonzero_bit (e.idx && (x_wide r || e.cross))

store_bit : (e : Ea) → bit (not (cross_store e == 0) || false) ≡ cross_store e
unfolding cross_store bit
store_bit e = nonzero_bit_or e.idx

module _ {W : Type 0} {count : Env W → ℕ} {v : Regs} (bus : Bus24 W)
    (counted : CountsOn bus count) where
  dummy-Spends :
      (b : Bool) (addr : ℕ)
      → Spends count v (bit b) (when b (do pin_none; _ ← read24 bus addr; pure tt))
  unfolding bit
  dummy-Spends b addr = when-Spends bus counted b (
      Spends-bind (pin_none-Spends bus counted)
        λ _. Spends-bind (Spends-read24 bus counted addr) λ _. Spends-pure tt)

  Spends-eq : {A : Type 0} {n k : ℕ} (m : M W A) → Spends count v n m → n ≡ k → Spends count v k m
  Spends-eq m h e = subst (λ n. Spends count v n m) e h

  load_io-Spends : (e : Ea) → Spends count v (cross_load e v) (index_io bus e false)
  unfolding index_io ◌>>=◌ regs
  load_io-Spends e = record {
    at = λ c h.
        (Spends-eq _ (dummy-Spends (not (cross_load e c.regs == 0)) e.unfixed)
            (load_bit e c.regs ∙ cross_load-Same e h)).at
          c h;
  }

  store_io-Spends : (e : Ea) → Spends count v (cross_store e) (index_io bus e true)
  unfolding index_io ◌>>=◌ regs
  store_io-Spends e = record {
    at = λ c h.
        (Spends-eq _ (dummy-Spends (not (cross_store e == 0) || false) e.unfixed) (store_bit e)).at
          c h;
  }

  read_ea-Spends : (e : Ea) (wide : Bool) → Spends count v (1 + b2i wide) (read_ea bus e wide)
  unfolding read_ea b2i
  read_ea-Spends e true =
      Spends-bind (read_data-Spends bus counted _)
        λ lo. Spends-bind (read_data-Spends bus counted _) λ hi. Spends-pure _
  read_ea-Spends e false = read_data-Spends bus counted _

  write_ea-Spends :
      (e : Ea) (wide : Bool) (b : ℕ) → Spends count v (1 + b2i wide) (write_ea bus e wide b)
  unfolding write_ea b2i when
  write_ea-Spends e true b =
      Spends-bind (write_data-Spends bus counted _ _) λ _. write_data-Spends bus counted _ _
  write_ea-Spends e false b = Spends-bind (write_data-Spends bus counted _ _) λ _. Spends-pure tt

  modify8-Spends : (e : Bool) (addr old : ℕ) → Spends count v 1 (modify8 bus e addr old)
  unfolding modify8
  modify8-Spends true addr old = Spends-write24 bus counted addr old
  modify8-Spends false addr old = Spends-bind (Spends-read24 bus counted addr) λ _. Spends-pure tt

  locked_read-Spends : (p addr : ℕ) → Spends count v 1 (set_pins p >>= λ _. read24 bus addr)
  locked_read-Spends p addr =
      Spends-bind (set_pins-Spends bus counted p) λ _. Spends-read24 bus counted addr

  locked_write-Spends : (p addr b : ℕ) → Spends count v 1 (set_pins p >>= λ _. write24 bus addr b)
  locked_write-Spends p addr b =
      Spends-bind (set_pins-Spends bus counted p) λ _. Spends-write24 bus counted addr b

  rmw_bytes-Spends :
      (wide : Bool) (fn : Rmw) (e : Ea)
      → CalmRmw fn
      → Spends count v (3 + 2 * b2i wide) (rmw_bytes bus wide fn e)
  unfolding rmw_bytes b2i
  rmw_bytes-Spends true fn e keeps = Spends-bind (locked_read-Spends _ _) λ lo.
      Spends-bind (locked_read-Spends _ _) λ hi.
        Spends-bind (Spends-through _ (Calm-Steady _ (keeps _ true))) λ b.
          Spends-bind (set_pins-Spends bus counted _) λ _.
            Spends-bind (Spends-read24 bus counted _)
              λ _. Spends-bind (locked_write-Spends _ _ _) λ _. locked_write-Spends _ _ _
  rmw_bytes-Spends false fn e keeps = Spends-bind (locked_read-Spends _ _) λ old.
      Spends-bind (Spends-through _ (Calm-Steady _ (keeps _ false))) λ b.
        Spends-bind (set_pins-Spends bus counted _) λ _.
          Spends-bind Spends-regs
            λ r. Spends-bind (modify8-Spends _ _ _) λ _. locked_write-Spends _ _ _

module _ {W : Type 0} {count : Env W → ℕ} (bus : Bus24 W) (counted : CountsOn bus count) where
  -- The wrapper pays for the accesses of the mode before it, and for its own.
  abbrev pub KernelPays : (Ea × ℕ → M W ℕ) → Type 0
  KernelPays kernel = (e : Ea × ℕ) (v : Regs) → Pays count v e.1 (λ n. n) (kernel e)

  -- A body pays: its accesses and the opcode fetch make up the cycles that it returns.
  abbrev pub CasePays : M W ℕ → Type 0
  CasePays body = (v : Regs) → Pays count v 1 (λ n. n) body

  pub via-CasePays :
      {mode : Mode W} {kernel : Ea × ℕ → M W ℕ}
      → ModePays bus counted mode
      → KernelPays kernel
      → CasePays (via mode kernel)
  via-CasePays hm hk v = Pays-then (hm v) hk

  read_operand-KernelPays :
      (width : Regs → Bool) (fn : ℕ → Regs → Regs)
      → ((v : ℕ) → Steady (fn v))
      → KernelPays (read_operand bus width fn)
  unfolding read_operand
  read_operand-KernelPays width fn keeps (e, oc) v = Pays-regs λ r _.
      Pays-bind (load_io-Spends bus counted e) λ _.
        Pays-bind (read_ea-Spends bus counted e (width r)) λ b.
          Pays-bind (Spends-on_regs _ (keeps b))
            λ _. Pays-regs λ r' h. Pays-pure _ (omega (arith, cross_load-Same e h))

  write_operand-KernelPays :
      (width : Regs → Bool) (value : Regs → ℕ) → KernelPays (write_operand bus width value)
  unfolding write_operand
  write_operand-KernelPays width value (e, oc) v = Pays-regs λ r _.
      Pays-bind (store_io-Spends bus counted e) λ _.
        Pays-bind (write_ea-Spends bus counted e (width r) (value r)) λ _. Pays-pure _ (omega arith)

  pub acc_read-KernelPays :
      (fn : ℕ → Regs → Regs) → ((v : ℕ) → Steady (fn v)) → KernelPays (acc_read bus fn)
  unfolding acc_read
  acc_read-KernelPays = read_operand-KernelPays m_wide

  pub idx_read-KernelPays :
      (fn : ℕ → Regs → Regs) → ((v : ℕ) → Steady (fn v)) → KernelPays (idx_read bus fn)
  unfolding idx_read
  idx_read-KernelPays = read_operand-KernelPays x_wide

  pub acc_write-KernelPays : (value : Regs → ℕ) → KernelPays (acc_write bus value)
  unfolding acc_write
  acc_write-KernelPays = write_operand-KernelPays m_wide

  pub idx_write-KernelPays : (value : Regs → ℕ) → KernelPays (idx_write bus value)
  unfolding idx_write
  idx_write-KernelPays = write_operand-KernelPays x_wide

  pub rmw_mem-KernelPays : (fn : Rmw) → CalmRmw fn → KernelPays (rmw_mem bus fn)
  unfolding rmw_mem
  rmw_mem-KernelPays fn keeps (e, oc) v = Pays-regs λ r _.
      Pays-bind (store_io-Spends bus counted e) λ _.
        Pays-bind (rmw_bytes-Spends bus counted (m_wide r) fn e keeps)
          λ _. Pays-pure _ (omega arith)

pub ruleset kernel_pays = (
  acc_read-KernelPays, idx_read-KernelPays, acc_write-KernelPays, idx_write-KernelPays,
  rmw_mem-KernelPays,
)
