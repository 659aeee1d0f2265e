-- ===== src/W65816/Locked/Access.antt =====
-- The memory primitives, the modes, the wrappers and the stack keep the locked registers.
use chippy.Prelude.{ℕ, Bool, true, false, ◌+◌, u16}
use chippy.W65816.State.{Bus24, Regs, M}
use chippy.W65816.Access.{
  set_pins, pin_data, pin_none, pin_vector, fetch816, fetch16, fetch24, io816, io_pc1, read_data,
  write_data, read_imm,
}
use chippy.W65816.Modes.{
  Ea, dp_io, when, read_ea, write_ea, read_dp_word, read_dp_long, read_dp_word_wrap,
  read_dp_long_wrap,
}
use chippy.W65816.Resolve.{
  am_dp, am_dp_idx, am_abs, am_abs_idx, am_long, am_long_x, am_ind_dp, am_ind_dp_y, am_ind_dp_x,
  am_ind_long_dp, am_ind_long_dp_y, am_stack_rel, am_stack_rel_ind_y, am_dp_x, am_dp_y, am_abs_x,
  am_abs_y,
}
use chippy.W65816.Stack.{
  sp_push8, sp_pull8, sp_push16, sp_pull16, sp_push_new, sp_pull_new, sp_push16_new, sp_pull16_new,
  sp_reforce,
}
use chippy.W65816.Control.{set_pc}
use chippy.W65816.Kept.{Calm}
use chippy.W65816.Locked.Rules.{Leads, Leads-pure, Leads-on_regs, lead_rules}
use chippy.W65816.Locked.Registers.{
  Kept-free, sp_up-IsLocked, sp_down-IsLocked, sp_set_raw-IsLocked, sp_reforce_regs-IsLocked,
}

pub pc-Calm : (f : Regs → ℕ) → Calm (λ r. record r { pc = f r })
pc-Calm f r = Kept-free r.a r.b r.x r.y r.sp r.dbr r.pbr (f r) r

pub set_pc-Calm : (v : ℕ) → Calm (set_pc v)
unfolding set_pc
set_pc-Calm v = pc-Calm (λ _. v)

module _ {W : Type 0} {s : Bool} (bus : Bus24 W) where
  pub set_pins-Leads : (p : ℕ) → Leads {W = W} s s (set_pins p)
  unfolding set_pins
  set_pins-Leads p = search (lead_rules) depth 30

  pub pin_data-Leads : Leads {W = W} s s pin_data
  unfolding pin_data
  pin_data-Leads = search (lead_rules) depth 30

  pub pin_none-Leads : Leads {W = W} s s pin_none
  unfolding pin_none
  pin_none-Leads = search (lead_rules) depth 30

  pub pin_vector-Leads : Leads {W = W} s s pin_vector
  unfolding pin_vector
  pin_vector-Leads = search (lead_rules) depth 30

  pub fetch816-Leads : Leads s s (fetch816 bus)
  unfolding fetch816
  fetch816-Leads = search (lead_rules, pc-Calm (λ r. u16 (r.pc + 1))) depth 30

  pub io816-Leads : Leads s s (io816 bus)
  unfolding io816
  io816-Leads = search (lead_rules, pin_none-Leads) depth 30

  pub io_pc1-Leads : Leads s s (io_pc1 bus)
  unfolding io_pc1
  io_pc1-Leads = search (lead_rules, pin_none-Leads) depth 30

  pub read_data-Leads : (addr : ℕ) → Leads s s (read_data bus addr)
  unfolding read_data
  read_data-Leads addr = search (lead_rules, pin_data-Leads) depth 30

  pub write_data-Leads : (addr b : ℕ) → Leads s s (write_data bus addr b)
  unfolding write_data
  write_data-Leads addr b = search (lead_rules, pin_data-Leads) depth 30

  pub fetch16-Leads : Leads s s (fetch16 bus)
  unfolding fetch16
  fetch16-Leads = search (lead_rules, fetch816-Leads) depth 30

  pub fetch24-Leads : Leads s s (fetch24 bus)
  unfolding fetch24
  fetch24-Leads = search (lead_rules, fetch816-Leads) depth 30

  pub read_imm-Leads : (wide : Bool) → Leads s s (read_imm bus wide)
  unfolding read_imm
  read_imm-Leads true = search (lead_rules, fetch816-Leads) depth 30
  read_imm-Leads false = search (lead_rules, fetch816-Leads) depth 30

  pub when-Leads : (b : Bool) (m : M W (Unit {0})) → Leads s s m → Leads s s (when b m)
  unfolding when
  when-Leads true m h = h
  when-Leads false m h = Leads-pure tt

  pub dp_io-Leads : Leads s s (dp_io bus)
  unfolding dp_io
  dp_io-Leads = search (lead_rules, when-Leads, io_pc1-Leads) depth 30

  pub read_ea-Leads : (e : Ea) (wide : Bool) → Leads s s (read_ea bus e wide)
  unfolding read_ea
  read_ea-Leads e true = search (lead_rules, read_data-Leads) depth 30
  read_ea-Leads e false = read_data-Leads e.addr

  pub write_ea-Leads : (e : Ea) (wide : Bool) (b : ℕ) → Leads s s (write_ea bus e wide b)
  unfolding write_ea
  write_ea-Leads e wide b = search (lead_rules, write_data-Leads, when-Leads) depth 30

  pub read_dp_word-Leads : (dp idx : ℕ) → Leads s s (read_dp_word bus dp idx)
  unfolding read_dp_word
  read_dp_word-Leads dp idx = search (lead_rules, read_data-Leads) depth 30

  pub read_dp_long-Leads : (dp : ℕ) → Leads s s (read_dp_long bus dp)
  unfolding read_dp_long
  read_dp_long-Leads dp = search (lead_rules, read_data-Leads) depth 30

  pub read_dp_word_wrap-Leads : (dp : ℕ) → Leads s s (read_dp_word_wrap bus dp)
  unfolding read_dp_word_wrap
  read_dp_word_wrap-Leads dp = search (lead_rules, read_data-Leads) depth 30

  pub read_dp_long_wrap-Leads : (dp : ℕ) → Leads s s (read_dp_long_wrap bus dp)
  unfolding read_dp_long_wrap
  read_dp_long_wrap-Leads dp = search (lead_rules, read_data-Leads) depth 30

  pub ruleset access_leads = (
    pin_none-Leads, pin_vector-Leads, fetch816-Leads, fetch16-Leads, fetch24-Leads, io816-Leads,
    io_pc1-Leads, read_data-Leads, write_data-Leads, read_imm-Leads, when-Leads, dp_io-Leads,
    read_ea-Leads, write_ea-Leads, read_dp_word-Leads, read_dp_long-Leads, read_dp_word_wrap-Leads,
    read_dp_long_wrap-Leads,
  )

  pub am_dp-Leads : Leads s s (am_dp bus)
  unfolding am_dp
  am_dp-Leads = search (lead_rules, access_leads) depth 30

  pub am_dp_idx-Leads : (idx : ℕ) → Leads s s (am_dp_idx bus idx)
  unfolding am_dp_idx
  am_dp_idx-Leads idx = search (lead_rules, access_leads) depth 30

  pub am_abs-Leads : Leads s s (am_abs bus)
  unfolding am_abs
  am_abs-Leads = search (lead_rules, access_leads) depth 30

  pub am_abs_idx-Leads : (idx : ℕ) → Leads s s (am_abs_idx bus idx)
  unfolding am_abs_idx
  am_abs_idx-Leads idx = search (lead_rules, access_leads) depth 30

  pub am_long-Leads : Leads s s (am_long bus)
  unfolding am_long
  am_long-Leads = search (lead_rules, access_leads) depth 30

  pub am_long_x-Leads : Leads s s (am_long_x bus)
  unfolding am_long_x
  am_long_x-Leads = search (lead_rules, access_leads) depth 30

  pub am_ind_dp-Leads : Leads s s (am_ind_dp bus)
  unfolding am_ind_dp
  am_ind_dp-Leads = search (lead_rules, access_leads) depth 30

  pub am_ind_dp_y-Leads : Leads s s (am_ind_dp_y bus)
  unfolding am_ind_dp_y
  am_ind_dp_y-Leads = search (lead_rules, access_leads) depth 30

  pub am_ind_dp_x-Leads : Leads s s (am_ind_dp_x bus)
  unfolding am_ind_dp_x
  am_ind_dp_x-Leads = search (lead_rules, access_leads) depth 30

  pub am_ind_long_dp-Leads : Leads s s (am_ind_long_dp bus)
  unfolding am_ind_long_dp
  am_ind_long_dp-Leads = search (lead_rules, access_leads) depth 30

  pub am_ind_long_dp_y-Leads : Leads s s (am_ind_long_dp_y bus)
  unfolding am_ind_long_dp_y
  am_ind_long_dp_y-Leads = search (lead_rules, access_leads) depth 30

  pub am_stack_rel-Leads : Leads s s (am_stack_rel bus)
  unfolding am_stack_rel
  am_stack_rel-Leads = search (lead_rules, access_leads) depth 30

  pub am_stack_rel_ind_y-Leads : Leads s s (am_stack_rel_ind_y bus)
  unfolding am_stack_rel_ind_y
  am_stack_rel_ind_y-Leads = search (lead_rules, access_leads) depth 30

  pub am_dp_x-Leads : Leads s s (am_dp_x bus)
  unfolding am_dp_x
  am_dp_x-Leads = search (lead_rules, am_dp_idx-Leads) depth 30

  pub am_dp_y-Leads : Leads s s (am_dp_y bus)
  unfolding am_dp_y
  am_dp_y-Leads = search (lead_rules, am_dp_idx-Leads) depth 30

  pub am_abs_x-Leads : Leads s s (am_abs_x bus)
  unfolding am_abs_x
  am_abs_x-Leads = search (lead_rules, am_abs_idx-Leads) depth 30

  pub am_abs_y-Leads : Leads s s (am_abs_y bus)
  unfolding am_abs_y
  am_abs_y-Leads = search (lead_rules, am_abs_idx-Leads) depth 30

  pub ruleset mode_leads = (
    am_dp-Leads, am_abs-Leads, am_long-Leads, am_long_x-Leads, am_ind_dp-Leads, am_ind_dp_y-Leads,
    am_ind_dp_x-Leads, am_ind_long_dp-Leads, am_ind_long_dp_y-Leads, am_stack_rel-Leads,
    am_stack_rel_ind_y-Leads, am_dp_x-Leads, am_dp_y-Leads, am_abs_x-Leads, am_abs_y-Leads,
  )

  pub sp_push8-Leads : (b : ℕ) → Leads s s (sp_push8 bus b)
  unfolding sp_push8
  sp_push8-Leads b = search (lead_rules, write_data-Leads, Leads-on_regs, sp_down-IsLocked) depth 30

  pub sp_pull8-Leads : Leads s s (sp_pull8 bus)
  unfolding sp_pull8
  sp_pull8-Leads = search (lead_rules, read_data-Leads, Leads-on_regs, sp_up-IsLocked) depth 30

  pub sp_push16-Leads : (b : ℕ) → Leads s s (sp_push16 bus b)
  unfolding sp_push16
  sp_push16-Leads b = search (lead_rules, sp_push8-Leads) depth 30

  pub sp_pull16-Leads : Leads s s (sp_pull16 bus)
  unfolding sp_pull16
  sp_pull16-Leads = search (lead_rules, sp_pull8-Leads) depth 30

-- The new stack instructions leave page 1, and force it again at their end.
module _ {W : Type 0} (bus : Bus24 W) where
  pub sp_push_new-Leads : (b : ℕ) → Leads false false (sp_push_new bus b)
  unfolding sp_push_new
  sp_push_new-Leads b =
      search (lead_rules, write_data-Leads, Leads-on_regs, sp_set_raw-IsLocked) depth 30

  pub sp_pull_new-Leads : Leads false false (sp_pull_new bus)
  unfolding sp_pull_new
  sp_pull_new-Leads =
      search (lead_rules, read_data-Leads, Leads-on_regs, sp_set_raw-IsLocked) depth 30

  pub sp_push16_new-Leads : (b : ℕ) → Leads false false (sp_push16_new bus b)
  unfolding sp_push16_new
  sp_push16_new-Leads b = search (lead_rules, sp_push_new-Leads) depth 30

  pub sp_pull16_new-Leads : Leads false false (sp_pull16_new bus)
  unfolding sp_pull16_new
  sp_pull16_new-Leads = search (lead_rules, sp_pull_new-Leads) depth 30

pub sp_reforce-Leads : {W : Type 0} {t : Bool} → Leads {W = W} false t sp_reforce
unfolding sp_reforce
sp_reforce-Leads = Leads-on_regs _ sp_reforce_regs-IsLocked
