-- ===== src/W65816/Cases.antt =====
-- The switch of step816 (cpu/exec816.go), case by case.
pub mod Flow
unfoldable pub use Flow.*
use chippy.Prelude.{ℕ, ◌+◌, true, false, not, List, [], ◌∷◌, ◌++◌, bit_and, bit_or, bit_xor}
use chippy.Cpu.Flags.{flag_c, flag_z, flag_i, flag_d, flag_v, flag_n}
use chippy.W65816.State.{Bus24, Regs, M, ◌>>=◌, pure}
use chippy.W65816.Width.{has_flag, set_flag, m_wide, x_wide, a16, x16, y16}
use chippy.W65816.Modes.{Ea}
use chippy.W65816.Resolve.{
  Mode, am_dp, am_abs, am_long, am_long_x, am_ind_dp, am_ind_dp_y, am_ind_dp_x, am_ind_long_dp,
  am_ind_long_dp_y, am_stack_rel, am_stack_rel_ind_y, am_dp_x, am_dp_y, am_abs_x, am_abs_y,
}
use chippy.W65816.Kernels.{
  Rmw, acc_read, idx_read, acc_write, idx_write, rmw_mem, acc_rmw, rmw_asl, rmw_lsr, rmw_rol,
  rmw_ror, rmw_inc, rmw_dec, tsb, trb,
}
use chippy.W65816.Alu.{
  ora_v, and_v, eor_v, load_acc, logic_acc, compare_regs, cmp_acc_v, bit_v, adc816, sbc816, put_a16,
  put_a,
}
use chippy.W65816.Control.{branch_if, brl, brk, cop, block_move}
use chippy.W65816.Transfer.{
  index_x, index_y, inc_dec_index, inc_dec_acc, transfer_to_index, transfer_to_acc, load_index,
  bit_imm, txs, tcs, tcd, tdc, tsc, xce, put_index16, put_index8,
}
use chippy.W65816.Inline.{
  internal, op_xba, immediate, op_sep, op_rep, push_reg, pull_reg, push_byte, op_plp, op_plb,
  op_phd, op_pld, op_pea, op_pei, op_per, jmp_abs, jml_long, jmp_ind, jmp_ind_x, jml_ind, jsr_abs,
  jsl_long, jsr_ind_x, op_rts, op_rtl, op_rti, op_wdm, op_wai, op_stp,
}

-- `e, oc := mode; cyc = wrapper(e, oc, ...)`
abbrev pub via : {W : Type 0} → Mode W → (Ea × ℕ → M W ℕ) → M W ℕ
via mode wrapper = mode >>= wrapper

abbrev pub cmp_x : ℕ → Regs → Regs
cmp_x v r = compare_regs (x16 r) v (x_wide r) r

abbrev pub cmp_y : ℕ → Regs → Regs
cmp_y v r = compare_regs (y16 r) v (x_wide r) r

module _ {W : Type 0} (bus : Bus24 W) where
  -- The fourteen modes of an accumulator operation whose opcodes begin at `base`.
  unfoldable pub alu_cases : ℕ → (Ea × ℕ → M W ℕ) → List (Case W)
  alu_cases base wrapper =
      (base + 0x01, via (am_ind_dp_x bus) wrapper)
      ∷ (base + 0x03, via (am_stack_rel bus) wrapper)
      ∷ (base + 0x05, via (am_dp bus) wrapper)
      ∷ (base + 0x07, via (am_ind_long_dp bus) wrapper)
      ∷ (base + 0x0D, via (am_abs bus) wrapper)
      ∷ (base + 0x0F, via (am_long bus) wrapper)
      ∷ (base + 0x11, via (am_ind_dp_y bus) wrapper)
      ∷ (base + 0x12, via (am_ind_dp bus) wrapper)
      ∷ (base + 0x13, via (am_stack_rel_ind_y bus) wrapper)
      ∷ (base + 0x15, via (am_dp_x bus) wrapper)
      ∷ (base + 0x17, via (am_ind_long_dp_y bus) wrapper)
      ∷ (base + 0x19, via (am_abs_y bus) wrapper)
      ∷ (base + 0x1D, via (am_abs_x bus) wrapper)
      ∷ (base + 0x1F, via (am_long_x bus) wrapper)
      ∷ []

  unfoldable pub ora_cases : List (Case W)
  unfolding alu_cases
  ora_cases = alu_cases 0x00 (acc_read bus ora_v)

  unfoldable pub and_cases : List (Case W)
  unfolding alu_cases
  and_cases = alu_cases 0x20 (acc_read bus and_v)

  unfoldable pub eor_cases : List (Case W)
  unfolding alu_cases
  eor_cases = alu_cases 0x40 (acc_read bus eor_v)

  unfoldable pub adc_cases : List (Case W)
  unfolding alu_cases
  adc_cases = alu_cases 0x60 (acc_read bus adc816)

  unfoldable pub sta_cases : List (Case W)
  unfolding alu_cases
  sta_cases = alu_cases 0x80 (acc_write bus a16)

  unfoldable pub lda_cases : List (Case W)
  unfolding alu_cases
  lda_cases = alu_cases 0xA0 (acc_read bus load_acc)

  unfoldable pub cmp_cases : List (Case W)
  unfolding alu_cases
  cmp_cases = alu_cases 0xC0 (acc_read bus cmp_acc_v)

  unfoldable pub sbc_cases : List (Case W)
  unfolding alu_cases
  sbc_cases = alu_cases 0xE0 (acc_read bus sbc816)

  -- NOP and the flag instructions.
  unfoldable pub flag_cases : List (Case W)
  flag_cases =
      (0xEA, internal bus (λ r. r))
      ∷ (0x18, internal bus (set_flag flag_c false))
      ∷ (0x38, internal bus (set_flag flag_c true))
      ∷ (0x58, internal bus (set_flag flag_i false))
      ∷ (0x78, internal bus (set_flag flag_i true))
      ∷ (0xD8, internal bus (set_flag flag_d false))
      ∷ (0xF8, internal bus (set_flag flag_d true))
      ∷ (0xB8, internal bus (set_flag flag_v false))
      ∷ []

  -- INX, DEX, INY, DEY, INC A, DEC A.
  unfoldable pub count_cases : List (Case W)
  count_cases =
      (0xE8, internal bus (inc_dec_index index_x 1))
      ∷ (0xCA, internal bus (inc_dec_index index_x 0xFFFF))
      ∷ (0xC8, internal bus (inc_dec_index index_y 1))
      ∷ (0x88, internal bus (inc_dec_index index_y 0xFFFF))
      ∷ (0x1A, internal bus (inc_dec_acc 1))
      ∷ (0x3A, internal bus (inc_dec_acc 0xFFFF))
      ∷ []

  -- The transfers and XBA.
  unfoldable pub transfer_cases : List (Case W)
  transfer_cases =
      (0xAA, internal bus (λ r. transfer_to_index index_x r.a r.b r))
      ∷ (0xA8, internal bus (λ r. transfer_to_index index_y r.a r.b r))
      ∷ (0xBA, internal bus (λ r. transfer_to_index index_x r.sp r.sp_hi r))
      ∷ (0x8A, internal bus (λ r. transfer_to_acc r.x r.xh r))
      ∷ (0x98, internal bus (λ r. transfer_to_acc r.y r.yh r))
      ∷ (0x9A, internal bus txs)
      ∷ (0x9B, internal bus (λ r. transfer_to_index index_y r.x r.xh r))
      ∷ (0xBB, internal bus (λ r. transfer_to_index index_x r.y r.yh r))
      ∷ (0x5B, internal bus tcd)
      ∷ (0x7B, internal bus tdc)
      ∷ (0x1B, internal bus tcs)
      ∷ (0x3B, internal bus tsc)
      ∷ (0xEB, op_xba bus)
      ∷ []

  -- The immediate loads, logic, comparisons, BIT, ADC and SBC.
  unfoldable pub immediate_cases : List (Case W)
  immediate_cases =
      (0xA9, immediate bus m_wide load_acc)
      ∷ (0xA2, immediate bus x_wide (load_index index_x))
      ∷ (0xA0, immediate bus x_wide (load_index index_y))
      ∷ (0x29, immediate bus m_wide (λ v. logic_acc λ a. bit_and a v))
      ∷ (0x09, immediate bus m_wide (λ v. logic_acc λ a. bit_or a v))
      ∷ (0x49, immediate bus m_wide (λ v. logic_acc λ a. bit_xor a v))
      ∷ (0xC9, immediate bus m_wide cmp_acc_v)
      ∷ (0xE0, immediate bus x_wide cmp_x)
      ∷ (0xC0, immediate bus x_wide cmp_y)
      ∷ (0x89, immediate bus m_wide bit_imm)
      ∷ (0x69, immediate bus m_wide adc816)
      ∷ (0xE9, immediate bus m_wide sbc816)
      ∷ []

  -- XCE, SEP, REP.
  unfoldable pub mode_cases : List (Case W)
  mode_cases = (0xFB, internal bus xce) ∷ (0xE2, op_sep bus) ∷ (0xC2, op_rep bus) ∷ []

  -- LDX, LDY, STX, STY.
  unfoldable pub index_cases : List (Case W)
  index_cases =
      (0xA6, via (am_dp bus) (idx_read bus (load_index index_x)))
      ∷ (0xAE, via (am_abs bus) (idx_read bus (load_index index_x)))
      ∷ (0xB6, via (am_dp_y bus) (idx_read bus (load_index index_x)))
      ∷ (0xBE, via (am_abs_y bus) (idx_read bus (load_index index_x)))
      ∷ (0xA4, via (am_dp bus) (idx_read bus (load_index index_y)))
      ∷ (0xAC, via (am_abs bus) (idx_read bus (load_index index_y)))
      ∷ (0xB4, via (am_dp_x bus) (idx_read bus (load_index index_y)))
      ∷ (0xBC, via (am_abs_x bus) (idx_read bus (load_index index_y)))
      ∷ (0x86, via (am_dp bus) (idx_write bus x16))
      ∷ (0x8E, via (am_abs bus) (idx_write bus x16))
      ∷ (0x96, via (am_dp_y bus) (idx_write bus x16))
      ∷ (0x84, via (am_dp bus) (idx_write bus y16))
      ∷ (0x8C, via (am_abs bus) (idx_write bus y16))
      ∷ (0x94, via (am_dp_x bus) (idx_write bus y16))
      ∷ []

  -- STZ.
  unfoldable pub store_zero_cases : List (Case W)
  store_zero_cases =
      (0x64, via (am_dp bus) (acc_write bus (λ _. 0)))
      ∷ (0x74, via (am_dp_x bus) (acc_write bus (λ _. 0)))
      ∷ (0x9C, via (am_abs bus) (acc_write bus (λ _. 0)))
      ∷ (0x9E, via (am_abs_x bus) (acc_write bus (λ _. 0)))
      ∷ []

  -- CPX, CPY and the memory forms of BIT.
  unfoldable pub compare_cases : List (Case W)
  compare_cases =
      (0xE4, via (am_dp bus) (idx_read bus cmp_x))
      ∷ (0xEC, via (am_abs bus) (idx_read bus cmp_x))
      ∷ (0xC4, via (am_dp bus) (idx_read bus cmp_y))
      ∷ (0xCC, via (am_abs bus) (idx_read bus cmp_y))
      ∷ (0x24, via (am_dp bus) (acc_read bus bit_v))
      ∷ (0x2C, via (am_abs bus) (acc_read bus bit_v))
      ∷ (0x34, via (am_dp_x bus) (acc_read bus bit_v))
      ∷ (0x3C, via (am_abs_x bus) (acc_read bus bit_v))
      ∷ []

  -- The memory forms of a shift, INC or DEC, by their opcodes.
  unfoldable pub memory_cases : ℕ → ℕ → ℕ → ℕ → Rmw → List (Case W)
  memory_cases dp abs dp_x abs_x fn =
      (dp, via (am_dp bus) (rmw_mem bus fn))
      ∷ (abs, via (am_abs bus) (rmw_mem bus fn))
      ∷ (dp_x, via (am_dp_x bus) (rmw_mem bus fn))
      ∷ (abs_x, via (am_abs_x bus) (rmw_mem bus fn))
      ∷ []

  -- TSB and TRB.
  unfoldable pub test_cases : List (Case W)
  test_cases =
      (0x04, via (am_dp bus) (rmw_mem bus tsb))
      ∷ (0x0C, via (am_abs bus) (rmw_mem bus tsb))
      ∷ (0x14, via (am_dp bus) (rmw_mem bus trb))
      ∷ (0x1C, via (am_abs bus) (rmw_mem bus trb))
      ∷ []

  unfoldable pub acc_cases : List (Case W)
  acc_cases =
      (0x0A, (acc_rmw bus rmw_asl >>= λ _. pure 2))
      ∷ (0x4A, (acc_rmw bus rmw_lsr >>= λ _. pure 2))
      ∷ (0x2A, (acc_rmw bus rmw_rol >>= λ _. pure 2))
      ∷ (0x6A, (acc_rmw bus rmw_ror >>= λ _. pure 2))
      ∷ []

  -- The shifts, INC, DEC, TSB and TRB.
  unfoldable pub rmw_cases : List (Case W)
  rmw_cases =
      acc_cases
      ++ memory_cases 0x06 0x0E 0x16 0x1E rmw_asl
      ++ memory_cases 0x46 0x4E 0x56 0x5E rmw_lsr
      ++ memory_cases 0x26 0x2E 0x36 0x3E rmw_rol
      ++ memory_cases 0x66 0x6E 0x76 0x7E rmw_ror
      ++ memory_cases 0xE6 0xEE 0xF6 0xFE rmw_inc
      ++ memory_cases 0xC6 0xCE 0xD6 0xDE rmw_dec
      ++ test_cases

  -- The cases but the last four.
  unfoldable pub regular_cases : List (Case W)
  regular_cases =
      flag_cases
      ++ count_cases
      ++ transfer_cases
      ++ immediate_cases
      ++ mode_cases
      ++ ora_cases
      ++ and_cases
      ++ eor_cases
      ++ adc_cases
      ++ sta_cases
      ++ lda_cases
      ++ cmp_cases
      ++ sbc_cases
      ++ index_cases
      ++ store_zero_cases
      ++ compare_cases
      ++ rmw_cases
      ++ stack_cases bus
      ++ jump_cases bus
      ++ branch_cases bus
      ++ interrupt_cases bus
