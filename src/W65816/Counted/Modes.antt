-- ===== src/W65816/Counted/Modes.antt =====
-- The overhead cycles of an addressing mode are its accesses, the opcode fetch included.
use chippy.Prelude.{ℕ, ◌+◌, ◌≡◌, refl, arith, ap, if◌then◌else◌}
use chippy.Cpu.State.{Env}
use chippy.W65816.State.{Bus24, Regs, M, ◌>>=◌}
use chippy.W65816.Access.{fetch816}
use chippy.W65816.Modes.{dl_penalty, dp_io}
use chippy.W65816.Resolve.{
  Mode, am_dp, am_dp_idx, am_abs, am_abs_idx, am_long, am_long_x, am_ind_dp, am_ind_dp_y,
  am_ind_dp_x, am_ind_long_dp, am_ind_long_dp_y, am_stack_rel, am_stack_rel_ind_y, am_dp_x, am_dp_y,
  am_abs_x, am_abs_y,
}
use chippy.W65816.Counted.Rules.{
  CountsOn, Same, Pays, Pays-pure, Pays-bind, Pays-regs, Spends-read24,
}
use chippy.W65816.Counted.Access.{
  fetch816-Spends, fetch16-Spends, fetch24-Spends, io_pc1-Spends, read_data-Spends, pin_none-Spends,
  dp_io-Spends, read_dp_word-Spends, read_dp_long-Spends, read_dp_long_wrap-Spends,
}

pub dl-Same : {r v : Regs} → Same r v → dl_penalty r ≡ dl_penalty v
unfolding dl_penalty
dl-Same h = ap (λ b. if b then 1 else 0) h.dl

module _ {W : Type 0} {count : Env W → ℕ} (bus : Bus24 W) (counted : CountsOn bus count) where
  abbrev pub ModePays : Mode W → Type 0
  ModePays mode = (v : Regs) → Pays count v 1 (λ e. e.1) mode

  -- The direct-page operand, with the cycle for DL.
  dp_operand-Pays :
      {v : Regs} {A : Type 0} {cost : A → ℕ} {f : ℕ → M W A}
      → ((dp : ℕ) → Pays count v (dl_penalty v + 2) cost (f dp))
      → Pays count v 1 cost (fetch816 bus >>= λ dp. dp_io bus >>= λ _. f dp)
  dp_operand-Pays hf =
      Pays-bind (fetch816-Spends bus counted) λ dp. Pays-bind (dp_io-Spends bus counted) λ _. hf dp

  pub am_dp-ModePays : ModePays (am_dp bus)
  unfolding am_dp
  am_dp-ModePays v = dp_operand-Pays λ dp. Pays-regs λ r h. Pays-pure _ (omega (arith, dl-Same h))

  pub am_dp_idx-ModePays : (idx : ℕ) → ModePays (am_dp_idx bus idx)
  unfolding am_dp_idx
  am_dp_idx-ModePays idx v = dp_operand-Pays λ dp.
      Pays-bind (io_pc1-Spends bus counted)
        λ _. Pays-regs λ r h. Pays-pure _ (omega (arith, dl-Same h))

  pub am_abs-ModePays : ModePays (am_abs bus)
  unfolding am_abs
  am_abs-ModePays v = Pays-bind (fetch16-Spends bus counted) λ a. Pays-regs λ r h. Pays-pure _ refl

  pub am_abs_idx-ModePays : (idx : ℕ) → ModePays (am_abs_idx bus idx)
  unfolding am_abs_idx
  am_abs_idx-ModePays idx v =
      Pays-bind (fetch16-Spends bus counted) λ a. Pays-regs λ r h. Pays-pure _ refl

  pub am_long-ModePays : ModePays (am_long bus)
  unfolding am_long
  am_long-ModePays v = Pays-bind (fetch24-Spends bus counted) λ a. Pays-pure _ refl

  pub am_long_x-ModePays : ModePays (am_long_x bus)
  unfolding am_long_x
  am_long_x-ModePays v =
      Pays-bind (fetch24-Spends bus counted) λ a. Pays-regs λ r h. Pays-pure _ refl

  pub am_ind_dp-ModePays : ModePays (am_ind_dp bus)
  unfolding am_ind_dp
  am_ind_dp-ModePays v = dp_operand-Pays λ dp.
      Pays-bind (read_dp_word-Spends bus counted dp 0)
        λ ptr. Pays-regs λ r h. Pays-pure _ (omega (arith, dl-Same h))

  pub am_ind_dp_y-ModePays : ModePays (am_ind_dp_y bus)
  unfolding am_ind_dp_y
  am_ind_dp_y-ModePays v = dp_operand-Pays λ dp.
      Pays-bind (read_dp_word-Spends bus counted dp 0)
        λ ptr. Pays-regs λ r h. Pays-pure _ (omega (arith, dl-Same h))

  pub am_ind_dp_x-ModePays : ModePays (am_ind_dp_x bus)
  unfolding am_ind_dp_x
  am_ind_dp_x-ModePays v = dp_operand-Pays λ dp. Pays-bind (io_pc1-Spends bus counted) λ _.
      Pays-regs λ r _.
        Pays-bind (read_dp_word-Spends bus counted dp _)
          λ ptr. Pays-regs λ r h. Pays-pure _ (omega (arith, dl-Same h))

  pub am_ind_long_dp-ModePays : ModePays (am_ind_long_dp bus)
  unfolding am_ind_long_dp
  am_ind_long_dp-ModePays v = dp_operand-Pays λ dp.
      Pays-bind (read_dp_long-Spends bus counted dp)
        λ ptr. Pays-regs λ r h. Pays-pure _ (omega (arith, dl-Same h))

  pub am_ind_long_dp_y-ModePays : ModePays (am_ind_long_dp_y bus)
  unfolding am_ind_long_dp_y
  am_ind_long_dp_y-ModePays v = dp_operand-Pays λ dp.
      Pays-bind (read_dp_long_wrap-Spends bus counted dp)
        λ ptr. Pays-regs λ r h. Pays-pure _ (omega (arith, dl-Same h))

  pub am_stack_rel-ModePays : ModePays (am_stack_rel bus)
  unfolding am_stack_rel
  am_stack_rel-ModePays v =
      Pays-bind (fetch816-Spends bus counted)
        λ sr. Pays-bind (io_pc1-Spends bus counted) λ _. Pays-regs λ r h. Pays-pure _ refl

  pub am_stack_rel_ind_y-ModePays : ModePays (am_stack_rel_ind_y bus)
  unfolding am_stack_rel_ind_y
  am_stack_rel_ind_y-ModePays v = Pays-bind (fetch816-Spends bus counted) λ sr.
      Pays-bind (io_pc1-Spends bus counted) λ _. Pays-regs λ r _.
        Pays-bind (read_data-Spends bus counted _) λ lo.
          Pays-bind (read_data-Spends bus counted _) λ hi.
            Pays-bind (pin_none-Spends bus counted)
              λ _. Pays-bind (Spends-read24 bus counted _) λ _. Pays-pure _ refl

  pub am_dp_x-ModePays : ModePays (am_dp_x bus)
  unfolding am_dp_x
  am_dp_x-ModePays v = Pays-regs λ r _. am_dp_idx-ModePays _ v

  pub am_dp_y-ModePays : ModePays (am_dp_y bus)
  unfolding am_dp_y
  am_dp_y-ModePays v = Pays-regs λ r _. am_dp_idx-ModePays _ v

  pub am_abs_x-ModePays : ModePays (am_abs_x bus)
  unfolding am_abs_x
  am_abs_x-ModePays v = Pays-regs λ r _. am_abs_idx-ModePays _ v

  pub am_abs_y-ModePays : ModePays (am_abs_y bus)
  unfolding am_abs_y
  am_abs_y-ModePays v = Pays-regs λ r _. am_abs_idx-ModePays _ v

pub ruleset mode_pays = (
  am_dp-ModePays, am_dp_idx-ModePays, am_abs-ModePays, am_abs_idx-ModePays, am_long-ModePays,
  am_long_x-ModePays, am_ind_dp-ModePays, am_ind_dp_y-ModePays, am_ind_dp_x-ModePays,
  am_ind_long_dp-ModePays, am_ind_long_dp_y-ModePays, am_stack_rel-ModePays,
  am_stack_rel_ind_y-ModePays, am_dp_x-ModePays, am_dp_y-ModePays, am_abs_x-ModePays,
  am_abs_y-ModePays,
)
