-- ===== src/W65816/Locked/Ops.antt =====
-- The wrappers and the bodies of the switch keep the locked registers.
use chippy.Prelude.{ℕ, ◌+◌, ◌≡◌, ◌∙◌, refl, Bool, true, false, u8}
use chippy.W65816.State.{Bus24, Regs, Cpu, ◌>>=◌, ◌>>◌, pure, regs, on_regs, on_pins}
use chippy.W65816.Width.{m_wide, x_wide, a16, set_a16}
use chippy.W65816.Access.{read_data, read24, pin_data}
use chippy.W65816.Modes.{Ea, b2i}
use chippy.W65816.Kernels.{
  Rmw, index_io, read_operand, write_operand, acc_read, idx_read, acc_write, idx_write, modify8,
  rmw_bytes, rmw_mem, acc_result, acc_rmw,
}
use chippy.W65816.Alu.{put_a16, put_a}
use chippy.W65816.Transfer.{
  Index, inc_dec_acc, transfer_to_acc, tdc, tsc, xba, put_index16, put_index8,
}
use chippy.W65816.Stack.{sp_up, sp_pull8, sp_pull16}
use chippy.W65816.Inline.{internal, op_xba, immediate, op_sep, op_rep, pull_value, pull_reg}
use chippy.W65816.Kept.{Kept-trans, Calm}
use chippy.W65816.Counted.Rules.{Same-trans}
use chippy.W65816.Counted.Calm.{put_a16-Kept, put_a-Kept, set_zn-Kept, acc-Kept, chosen-Kept}
use chippy.W65816.Counted.Sums.{CalmRmw}
use chippy.W65816.Counted.Stack.{sp_up-Steady}
use chippy.W65816.Locked.Rules.{IsLocked, Leads, Leads-on_regs, Leads-Calm, Leads-bind, lead_rules}
use chippy.W65816.Locked.Registers.{put_index16-IsLocked, put_index8-IsLocked}
use chippy.W65816.Locked.Status.{sep-IsLocked, rep_mask-IsLocked}
use chippy.W65816.Locked.Access.{
  access_leads, set_pins-Leads, sp_pull8-Leads, sp_pull16-Leads, io816-Leads, io_pc1-Leads,
  fetch816-Leads, read_imm-Leads,
}

pub inc_dec_acc-Calm : (delta : ℕ) → Calm (inc_dec_acc delta)
unfolding inc_dec_acc
inc_dec_acc-Calm delta r = chosen-Kept (m_wide r) _ _ r

pub transfer_to_acc-Calm : (lo hi : ℕ) → Calm (transfer_to_acc lo hi)
unfolding transfer_to_acc
transfer_to_acc-Calm lo hi r = chosen-Kept (m_wide r) _ _ r

pub tdc-Calm : Calm tdc
unfolding tdc
tdc-Calm r = put_a16-Kept _ r

pub tsc-Calm : Calm tsc
unfolding tsc
tsc-Calm r = put_a16-Kept _ r

xba-Calm : Calm xba
unfolding xba
xba-Calm r = Kept-trans (set_zn-Kept _ _) (acc-Kept _ _ r)

acc_result-Calm : (fn : Rmw) (wide : Bool) → CalmRmw fn → Calm (acc_result fn wide)
unfolding acc_result set_a16
acc_result-Calm fn true h r =
    let r' : Regs = (fn (a16 r) true r).1 in Kept-trans (acc-Kept _ _ r') (h (a16 r) true r)
acc_result-Calm fn false h r =
    let r' : Regs = (fn r.a false r).1 in
    Kept-trans (acc-Kept (u8 (fn r.a false r).0) r'.b r') (h r.a false r)

pulled_x_wide :
    {W : Type 0} (bus : Bus24 W) (c : Cpu W) → x_wide (sp_pull16 bus c).1.regs ≡ x_wide c.regs
unfolding sp_pull16 sp_pull8 ◌>>=◌ pure regs on_regs read_data read24 pin_data on_pins
pulled_x_wide bus c = (Same-trans (sp_up-Steady (sp_up c.regs)) (sp_up-Steady c.regs)).x

module _ {W : Type 0} {s : Bool} (bus : Bus24 W) where
  index_io-Locks : (e : Ea) (store : Bool) → Leads s s (index_io bus e store)
  unfolding index_io
  index_io-Locks e store = search (lead_rules, access_leads) depth 30

  read_operand-Locks :
      (width : Regs → Bool) (fn : ℕ → Regs → Regs) (e : Ea × ℕ)
      → ((v : ℕ) → Leads {W = W} s s (on_regs (fn v)))
      → Leads s s (read_operand bus width fn e)
  unfolding read_operand
  read_operand-Locks width fn (e, oc) h =
      search (lead_rules, access_leads, index_io-Locks, h) depth 30

  write_operand-Locks :
      (width : Regs → Bool) (value : Regs → ℕ) (e : Ea × ℕ)
      → Leads s s (write_operand bus width value e)
  unfolding write_operand
  write_operand-Locks width value (e, oc) =
      search (lead_rules, access_leads, index_io-Locks) depth 30

  pub acc_read-Locks :
      (fn : ℕ → Regs → Regs) (e : Ea × ℕ)
      → ((v : ℕ) → Leads {W = W} s s (on_regs (fn v)))
      → Leads s s (acc_read bus fn e)
  unfolding acc_read
  acc_read-Locks = read_operand-Locks m_wide

  pub idx_read-Locks :
      (fn : ℕ → Regs → Regs) (e : Ea × ℕ)
      → ((v : ℕ) → Leads {W = W} s s (on_regs (fn v)))
      → Leads s s (idx_read bus fn e)
  unfolding idx_read
  idx_read-Locks = read_operand-Locks x_wide

  pub acc_write-Locks : (value : Regs → ℕ) (e : Ea × ℕ) → Leads s s (acc_write bus value e)
  unfolding acc_write
  acc_write-Locks = write_operand-Locks m_wide

  pub idx_write-Locks : (value : Regs → ℕ) (e : Ea × ℕ) → Leads s s (idx_write bus value e)
  unfolding idx_write
  idx_write-Locks = write_operand-Locks x_wide

  modify8-Locks : (e : Bool) (addr old : ℕ) → Leads s s (modify8 bus e addr old)
  unfolding modify8
  modify8-Locks true addr old = search (lead_rules) depth 30
  modify8-Locks false addr old = search (lead_rules) depth 30

  rmw_bytes-Locks :
      (wide : Bool) (fn : Rmw) (e : Ea) → CalmRmw fn → Leads s s (rmw_bytes bus wide fn e)
  unfolding rmw_bytes
  rmw_bytes-Locks true fn e h = search (lead_rules, set_pins-Leads, h) depth 40
  rmw_bytes-Locks false fn e h = search (lead_rules, set_pins-Leads, modify8-Locks, h) depth 40

  pub rmw_mem-Locks : (fn : Rmw) (e : Ea × ℕ) → CalmRmw fn → Leads s s (rmw_mem bus fn e)
  unfolding rmw_mem
  rmw_mem-Locks fn (e, oc) h = search (lead_rules, index_io-Locks, rmw_bytes-Locks, h) depth 30

  pub acc_rmw-Locks : (fn : Rmw) → CalmRmw fn → Leads s s (acc_rmw bus fn)
  unfolding acc_rmw
  acc_rmw-Locks fn h =
      search (lead_rules, Leads-Calm _ (λ r. acc_result-Calm fn (m_wide r) h r), io816-Leads) depth
        30

  pub internal-Locks :
      (f : Regs → Regs) → Leads {W = W} s s (on_regs f) → Leads s s (internal bus f)
  unfolding internal
  internal-Locks f h = Leads-bind _ _ h λ _. search (lead_rules, io816-Leads) depth 30

  pub op_xba-Locks : Leads s s (op_xba bus)
  unfolding op_xba
  op_xba-Locks = search (lead_rules, io816-Leads, xba-Calm) depth 30

  pub immediate-Locks :
      (width : Regs → Bool) (f : ℕ → Regs → Regs)
      → ((v : ℕ) → Leads {W = W} s s (on_regs (f v)))
      → Leads s s (immediate bus width f)
  unfolding immediate
  immediate-Locks width f h = search (lead_rules, read_imm-Leads, h) depth 30

  pub op_sep-Locks : Leads s s (op_sep bus)
  unfolding op_sep
  op_sep-Locks =
      search (lead_rules, fetch816-Leads, io_pc1-Leads, Leads-on_regs, sep-IsLocked) depth 30

  pub op_rep-Locks : Leads s s (op_rep bus)
  unfolding op_rep
  op_rep-Locks =
      search (lead_rules, fetch816-Leads, io_pc1-Leads, Leads-on_regs, rep_mask-IsLocked) depth 30

  pull_value-IsLocked :
      (i : Index) (w : Bool) (c : Cpu W)
      → x_wide c.regs ≡ w
      → IsLocked s c.regs
      → IsLocked s (pull_value bus w (put_index16 i) (put_index8 i) c).1.regs
  unfolding pull_value ◌>>=◌ on_regs
  pull_value-IsLocked i true c e h =
      put_index16-IsLocked i _ _ (pulled_x_wide bus c ∙ e) ((sp_pull16-Leads bus).at c h)
  pull_value-IsLocked i false c e h = put_index8-IsLocked i _ _ ((sp_pull8-Leads bus).at c h)

  -- An index register pulled at its width, which the pull does not change.
  pull_index_value-Leads :
      (i : Index)
      → Leads s s (do
        r ← regs
        pull_value bus (x_wide r) (put_index16 i) (put_index8 i)
        r ← regs
        pure (4 + b2i (x_wide r)))
  unfolding ◌>>=◌ regs pure
  pull_index_value-Leads i = record { at = λ c h. pull_value-IsLocked i _ c refl h }

  pub pull_index-Locks :
      (i : Index) → Leads s s (pull_reg bus x_wide (put_index16 i) (put_index8 i))
  unfolding pull_reg
  pull_index-Locks i =
      Leads-bind _ _ (io816-Leads bus)
        λ _. Leads-bind _ _ (io816-Leads bus) λ _. pull_index_value-Leads i

  -- PLA.
  pull_value-Locks : (w : Bool) → Leads s s (pull_value bus w put_a16 put_a)
  unfolding pull_value
  pull_value-Locks true = search (lead_rules, sp_pull16-Leads, put_a16-Kept) depth 30
  pull_value-Locks false = search (lead_rules, sp_pull8-Leads, put_a-Kept) depth 30

  pub pull_acc-Locks : Leads s s (pull_reg bus m_wide put_a16 put_a)
  unfolding pull_reg
  pull_acc-Locks = search (lead_rules, io816-Leads, pull_value-Locks) depth 30

pub ruleset op_leads = (
  acc_read-Locks, idx_read-Locks, acc_write-Locks, idx_write-Locks, rmw_mem-Locks, acc_rmw-Locks,
  internal-Locks, op_xba-Locks, immediate-Locks, op_sep-Locks, op_rep-Locks, pull_index-Locks,
  pull_acc-Locks,
)
