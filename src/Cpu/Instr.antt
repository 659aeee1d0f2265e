-- ===== src/Cpu/Instr.antt =====
-- The instruction record of cpu/opcodes.go. Its handler, a Go function, is a name of a handler
-- here, and `exec` runs the handler of that name.
use chippy.Prelude.{ℕ, ◌+◌, Bool, true, false, String, u8, and_not8, bit_and, bit_or, bit_xor, ◌==◌}
use chippy.Cpu.State.{M, Bus, Regs, ◌>>◌, pure, on_regs, set_halted}
use chippy.Cpu.Flags.{flag_c, flag_z, flag_i, flag_d, flag_v, flag_n, set_flag}
use chippy.Cpu.Alu.{compare_flags}
use chippy.Cpu.Access.{read, write}
use chippy.Cpu.Addressing.{AddrMode}
use chippy.Cpu.Ops.{
  put_a, put_x, put_y, bit_flags, op_read, op_store, op_pha, op_php, op_pla, op_plp, op_adc, op_sbc,
  op_step_memory, op_shift, op_jsr, op_rts, op_rti, branch, op_branch, op_brk, op_nop, op_stp,
}
use chippy.Cpu.Illegal.{
  shift_left, rotate_left, shift_right, rotate_right, arr_regs, sbx_regs, put_ax, anc_regs,
  alr_regs, las_regs, high_plus_one, op_dcp, op_isc, op_shift_combine, op_rra, op_tas,
}
use chippy.Cpu.Cmos.{
  op_push_reg, op_pull_reg, op_test_bits, op_memory_bit, branch_bit_test, op_nop_abs,
}

pub data Op : Type 0 where
  op_lda op_ldx op_ldy op_sta op_stx op_sty : Op
  op_tax op_tay op_tsx op_txa op_txs op_tya : Op
  pha php pla plp : Op
  op_and op_eor op_ora op_bit : Op
  adc sbc op_cmp op_cpx op_cpy : Op
  op_inc op_dec op_inx op_iny op_dex op_dey : Op
  op_asl op_lsr op_rol op_ror : Op
  op_jmp jsr rts rti : Op
  op_bpl op_bmi op_bvc op_bvs op_bcc op_bcs op_bne op_beq : Op
  op_clc op_sec op_cli op_sei op_clv op_cld op_sed : Op
  brk nop op_wai stp : Op
  op_lax op_sax dcp isc op_slo op_rla op_sre rra : Op
  op_anc op_alr op_arr op_sbx op_nop2 op_nop3 : Op
  op_xaa op_lxa op_sha op_shx op_shy tas op_las : Op
  op_bra op_phx op_phy op_plx op_ply op_stz op_trb op_tsb op_ina op_dea op_bit_imm : Op
  nop_abs : Op
  rmb smb bbr bbs : ℕ → Op

pub record Instr : Type 0 where
  pub name : String
  pub mode : AddrMode
  pub bytes : ℕ
  pub cycles : ℕ
  pub page_add : Bool
  pub op : Op

-- INX and its like: `c.X++; c.setZN(c.X)`, by the byte added.
unfoldable pub step_x : ℕ → Regs → Regs
unfolding put_x
step_x by r = put_x (u8 (r.x + by)) r

unfoldable pub step_y : ℕ → Regs → Regs
unfolding put_y
step_y by r = put_y (u8 (r.y + by)) r

unfoldable pub step_a : ℕ → Regs → Regs
unfolding put_a
step_a by r = put_a (u8 (r.a + by)) r

module _ {W : Type 0} (bus : Bus W) where
  unfoldable pub exec : Op → ℕ → AddrMode → M W (Unit {0})
  exec op_lda addr m = op_read bus put_a addr
  exec op_ldx addr m = op_read bus put_x addr
  exec op_ldy addr m = op_read bus put_y addr
  exec op_sta addr m = op_store bus (λ r. r.a) addr
  exec op_stx addr m = op_store bus (λ r. r.x) addr
  exec op_sty addr m = op_store bus (λ r. r.y) addr
  exec op_tax addr m = on_regs (λ r. put_x r.a r)
  exec op_tay addr m = on_regs (λ r. put_y r.a r)
  exec op_tsx addr m = on_regs (λ r. put_x r.sp r)
  exec op_txa addr m = on_regs (λ r. put_a r.x r)
  exec op_txs addr m = on_regs (λ r. record r { sp = r.x })
  exec op_tya addr m = on_regs (λ r. put_a r.y r)
  exec pha addr m = op_pha bus
  exec php addr m = op_php bus
  exec pla addr m = op_pla bus
  exec plp addr m = op_plp bus
  exec op_and addr m = op_read bus (λ v r. put_a (bit_and r.a v) r) addr
  exec op_eor addr m = op_read bus (λ v r. put_a (bit_xor r.a v) r) addr
  exec op_ora addr m = op_read bus (λ v r. put_a (bit_or r.a v) r) addr
  exec op_bit addr m = op_read bus bit_flags addr
  exec adc addr m = op_adc bus addr
  exec sbc addr m = op_sbc bus addr
  exec op_cmp addr m = op_read bus (λ v r. compare_flags r.a v r) addr
  exec op_cpx addr m = op_read bus (λ v r. compare_flags r.x v r) addr
  exec op_cpy addr m = op_read bus (λ v r. compare_flags r.y v r) addr
  exec op_inc addr m = op_step_memory bus 1 addr m
  exec op_dec addr m = op_step_memory bus 255 addr m
  exec op_inx addr m = on_regs (step_x 1)
  exec op_iny addr m = on_regs (step_y 1)
  exec op_dex addr m = on_regs (step_x 255)
  exec op_dey addr m = on_regs (step_y 255)
  exec op_asl addr m = op_shift bus 0x80 shift_left addr m
  exec op_lsr addr m = op_shift bus 1 shift_right addr m
  exec op_rol addr m = op_shift bus 0x80 rotate_left addr m
  exec op_ror addr m = op_shift bus 1 rotate_right addr m
  exec op_jmp addr m = on_regs (λ r. record r { pc = addr })
  exec jsr addr m = op_jsr bus addr
  exec rts addr m = op_rts bus
  exec rti addr m = op_rti bus
  exec op_bpl addr m = op_branch bus flag_n false addr
  exec op_bmi addr m = op_branch bus flag_n true addr
  exec op_bvc addr m = op_branch bus flag_v false addr
  exec op_bvs addr m = op_branch bus flag_v true addr
  exec op_bcc addr m = op_branch bus flag_c false addr
  exec op_bcs addr m = op_branch bus flag_c true addr
  exec op_bne addr m = op_branch bus flag_z false addr
  exec op_beq addr m = op_branch bus flag_z true addr
  exec op_clc addr m = on_regs (set_flag flag_c false)
  exec op_sec addr m = on_regs (set_flag flag_c true)
  exec op_cli addr m = on_regs (set_flag flag_i false)
  exec op_sei addr m = on_regs (set_flag flag_i true)
  exec op_clv addr m = on_regs (set_flag flag_v false)
  exec op_cld addr m = on_regs (set_flag flag_d false)
  exec op_sed addr m = on_regs (set_flag flag_d true)
  exec brk addr m = op_brk bus
  exec nop addr m = op_nop bus addr m
  exec op_wai addr m = set_halted true
  exec stp addr m = op_stp bus
  exec op_lax addr m = op_read bus put_ax addr
  exec op_sax addr m = op_store bus (λ r. bit_and r.a r.x) addr
  exec dcp addr m = op_dcp bus addr
  exec isc addr m = op_isc bus addr
  exec op_slo addr m = op_shift_combine bus 0x80 shift_left bit_or addr
  exec op_rla addr m = op_shift_combine bus 0x80 rotate_left bit_and addr
  exec op_sre addr m = op_shift_combine bus 1 shift_right bit_xor addr
  exec rra addr m = op_rra bus addr
  exec op_anc addr m = op_read bus anc_regs addr
  exec op_alr addr m = op_read bus alr_regs addr
  exec op_arr addr m = op_read bus (λ v r. arr_regs (bit_and r.a v) r) addr
  exec op_sbx addr m = op_read bus sbx_regs addr
  exec op_nop2 addr m = do read bus addr; pure tt
  exec op_nop3 addr m = do read bus addr; pure tt
  exec op_xaa addr m = op_read bus (λ v r. put_a (bit_and (bit_and (bit_or r.a 0xEE) r.x) v) r) addr
  exec op_lxa addr m = op_read bus (λ v r. put_ax (bit_and (bit_or r.a 0xEE) v) r) addr
  exec op_sha addr m = op_store bus (λ r. bit_and (bit_and r.a r.x) (high_plus_one addr)) addr
  exec op_shx addr m = op_store bus (λ r. bit_and r.x (high_plus_one addr)) addr
  exec op_shy addr m = op_store bus (λ r. bit_and r.y (high_plus_one addr)) addr
  exec tas addr m = op_tas bus addr
  exec op_las addr m = op_read bus las_regs addr
  exec op_bra addr m = branch bus addr true
  exec op_phx addr m = op_push_reg bus (λ r. r.x)
  exec op_phy addr m = op_push_reg bus (λ r. r.y)
  exec op_plx addr m = op_pull_reg bus put_x
  exec op_ply addr m = op_pull_reg bus put_y
  exec op_stz addr m = write bus addr 0
  exec op_trb addr m = op_test_bits bus (λ a v. and_not8 v a) addr m
  exec op_tsb addr m = op_test_bits bus (λ a v. bit_or v a) addr m
  exec op_ina addr m = on_regs (step_a 1)
  exec op_dea addr m = on_regs (step_a 255)
  exec op_bit_imm addr m = op_read bus (λ v r. set_flag flag_z (bit_and r.a v == 0) r) addr
  exec nop_abs addr m = op_nop_abs bus
  exec (rmb b) addr m = op_memory_bit bus b false addr m
  exec (smb b) addr m = op_memory_bit bus b true addr m
  exec (bbr b) addr m = branch_bit_test bus b false
  exec (bbs b) addr m = branch_bit_test bus b true
