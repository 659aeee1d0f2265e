-- ===== src/W65816/Cases/Flow.antt =====
-- The cases of step816 (cpu/exec816.go) for the stack, jumps, branches and stops.
use chippy.Prelude.{ℕ, true, not, List, [], ◌∷◌}
use chippy.Cpu.Flags.{flag_c, flag_z, flag_v, flag_n}
use chippy.W65816.State.{Bus24, M}
use chippy.W65816.Width.{has_flag, m_wide, x_wide, a16, x16, y16}
use chippy.W65816.Alu.{put_a16, put_a}
use chippy.W65816.Control.{branch_if, brl, brk, cop, block_move}
use chippy.W65816.Transfer.{index_x, index_y, put_index16, put_index8}
use chippy.W65816.Inline.{
  push_reg, pull_reg, push_byte, op_plp, op_plb, op_phd, op_pld, op_pea, op_pei, op_per, jmp_abs,
  jml_long, jmp_ind, jmp_ind_x, jml_ind, jsr_abs, jsl_long, jsr_ind_x, op_rts, op_rtl, op_rti,
  op_wdm, op_wai, op_stp,
}

-- A case of the switch: the opcode, and the body with the cycles that it leaves in `cyc`.
abbrev pub Case : Type 0 → Type 0
Case W = ℕ × M W ℕ

module _ {W : Type 0} (bus : Bus24 W) where
  -- The stack instructions.
  unfoldable pub stack_cases : List (Case W)
  stack_cases =
      (0x48, push_reg bus m_wide a16 (λ r. r.a))
      ∷ (0x68, pull_reg bus m_wide put_a16 put_a)
      ∷ (0xDA, push_reg bus x_wide x16 (λ r. r.x))
      ∷ (0xFA, pull_reg bus x_wide (put_index16 index_x) (put_index8 index_x))
      ∷ (0x5A, push_reg bus x_wide y16 (λ r. r.y))
      ∷ (0x7A, pull_reg bus x_wide (put_index16 index_y) (put_index8 index_y))
      ∷ (0x08, push_byte bus (λ r. r.p))
      ∷ (0x28, op_plp bus)
      ∷ (0x8B, push_byte bus (λ r. r.dbr))
      ∷ (0xAB, op_plb bus)
      ∷ (0x4B, push_byte bus (λ r. r.pbr))
      ∷ (0x0B, op_phd bus)
      ∷ (0x2B, op_pld bus)
      ∷ (0xF4, op_pea bus)
      ∷ (0xD4, op_pei bus)
      ∷ (0x62, op_per bus)
      ∷ []

  -- Jumps, calls and returns.
  unfoldable pub jump_cases : List (Case W)
  jump_cases =
      (0x4C, jmp_abs bus)
      ∷ (0x5C, jml_long bus)
      ∷ (0x6C, jmp_ind bus)
      ∷ (0x7C, jmp_ind_x bus)
      ∷ (0xDC, jml_ind bus)
      ∷ (0x20, jsr_abs bus)
      ∷ (0x22, jsl_long bus)
      ∷ (0xFC, jsr_ind_x bus)
      ∷ (0x60, op_rts bus)
      ∷ (0x6B, op_rtl bus)
      ∷ (0x40, op_rti bus)
      ∷ []

  -- The branches.
  unfoldable pub branch_cases : List (Case W)
  branch_cases =
      (0x10, branch_if bus (λ r. not (has_flag flag_n r)))
      ∷ (0x30, branch_if bus (λ r. has_flag flag_n r))
      ∷ (0x50, branch_if bus (λ r. not (has_flag flag_v r)))
      ∷ (0x70, branch_if bus (λ r. has_flag flag_v r))
      ∷ (0x90, branch_if bus (λ r. not (has_flag flag_c r)))
      ∷ (0xB0, branch_if bus (λ r. has_flag flag_c r))
      ∷ (0xD0, branch_if bus (λ r. not (has_flag flag_z r)))
      ∷ (0xF0, branch_if bus (λ r. has_flag flag_z r))
      ∷ (0x80, branch_if bus (λ _. true))
      ∷ (0x82, brl bus)
      ∷ []

  -- BRK, COP and WDM.
  unfoldable pub interrupt_cases : List (Case W)
  interrupt_cases = (0x00, brk bus) ∷ (0x02, cop bus) ∷ (0x42, op_wdm bus) ∷ []

  -- WAI, STP, MVN and MVP.
  unfoldable pub stop_cases : List (Case W)
  stop_cases =
      (0xCB, op_wai)
      ∷ (0xDB, op_stp)
      ∷ (0x54, block_move bus 1)
      ∷ (0x44, block_move bus 0xFFFF)
      ∷ []
