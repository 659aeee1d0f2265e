-- ===== src/Cpu/Cycles/Ops.antt =====
-- The ticks of each handler, beyond the extra cycles that it declares itself.
use chippy.Prelude.{ℕ, true, if◌then◌else◌}
use chippy.Cpu.State.{Cpu, Bus}
use chippy.Cpu.Addressing.{AddrMode}
use chippy.Cpu.Ops
use chippy.Cpu.Ops.{is_acc, is_operandless}
use chippy.Cpu.Illegal
use chippy.Cpu.Cmos
use chippy.Cpu.Instr.{
  Op, op_lda, op_tax, op_tay, op_tsx, op_txa, op_txs, op_tya, pha, php, pla, plp, op_inc, op_dec,
  op_inx, op_iny, op_dex, op_dey, op_asl, op_lsr, op_rol, op_ror, op_jmp, jsr, rts, rti, op_bpl,
  op_bmi, op_bvc, op_bvs, op_bcc, op_bcs, op_bne, op_beq, op_clc, op_sec, op_cli, op_sei, op_clv,
  op_cld, op_sed, brk, nop, op_wai, stp, dcp, isc, op_slo, op_rla, op_sre, rra, op_bra, op_phx,
  op_phy, op_plx, op_ply, op_trb, op_tsb, op_ina, op_dea, rmb, smb, bbr, bbs, exec,
}
use chippy.Cpu.Cycles.Counts.{IsPerCycle, Took, Counts}
use chippy.Cpu.Cycles.Handlers.{handler_rules}

unfoldable pub op_ticks : Op → AddrMode → ℕ
op_ticks op_tax m = 0
op_ticks op_tay m = 0
op_ticks op_tsx m = 0
op_ticks op_txa m = 0
op_ticks op_txs m = 0
op_ticks op_tya m = 0
op_ticks pha m = 2
op_ticks php m = 2
op_ticks pla m = 3
op_ticks plp m = 3
op_ticks op_inc m = if is_acc m then 2 else 3
op_ticks op_dec m = if is_acc m then 2 else 3
op_ticks op_inx m = 0
op_ticks op_iny m = 0
op_ticks op_dex m = 0
op_ticks op_dey m = 0
op_ticks op_asl m = if is_acc m then 0 else 3
op_ticks op_lsr m = if is_acc m then 0 else 3
op_ticks op_rol m = if is_acc m then 0 else 3
op_ticks op_ror m = if is_acc m then 0 else 3
op_ticks op_jmp m = 0
op_ticks jsr m = 4
op_ticks rts m = 5
op_ticks rti m = 5
op_ticks op_bpl m = 0
op_ticks op_bmi m = 0
op_ticks op_bvc m = 0
op_ticks op_bvs m = 0
op_ticks op_bcc m = 0
op_ticks op_bcs m = 0
op_ticks op_bne m = 0
op_ticks op_beq m = 0
op_ticks op_clc m = 0
op_ticks op_sec m = 0
op_ticks op_cli m = 0
op_ticks op_sei m = 0
op_ticks op_clv m = 0
op_ticks op_cld m = 0
op_ticks op_sed m = 0
op_ticks brk m = 6
op_ticks nop m = if is_operandless m then 0 else 1
op_ticks op_wai m = 0
op_ticks stp m = 0
op_ticks dcp m = 3
op_ticks isc m = 3
op_ticks op_slo m = 3
op_ticks op_rla m = 3
op_ticks op_sre m = 3
op_ticks rra m = 3
op_ticks op_bra m = 0
op_ticks op_phx m = 2
op_ticks op_phy m = 2
op_ticks op_plx m = 3
op_ticks op_ply m = 3
op_ticks op_trb m = if is_acc m then 2 else 3
op_ticks op_tsb m = if is_acc m then 2 else 3
op_ticks op_ina m = 0
op_ticks op_dea m = 0
op_ticks (rmb b) m = if is_acc m then 2 else 3
op_ticks (smb b) m = if is_acc m then 2 else 3
op_ticks (bbr b) m = 5
op_ticks (bbs b) m = 5
op_ticks _ m = 1

module _ {W : Type 0} (bus : Bus W) where
  pub Counts-exec :
      (op : Op) (addr : ℕ) (m : AddrMode) → Counts true (op_ticks op m) (exec bus op addr m)
  unfolding exec op_ticks Ops.op_pha Ops.op_php Ops.op_pla Ops.op_plp Ops.op_jsr Ops.op_rts
      Ops.op_rti Ops.op_brk Ops.op_stp Illegal.op_dcp Illegal.op_isc Illegal.op_rra Illegal.op_tas
      Cmos.op_nop_abs
  Counts-exec op_lda addr m = search handler_rules depth 30
  Counts-exec _ addr m = search handler_rules depth 30

  -- In per-cycle mode each handler ticks as often as `op_ticks` says, and once more for each
  -- extra cycle that it declares, and the mode stays on.
  pub exec-ticks :
      (op : Op) (addr : ℕ) (m : AddrMode) (c : Cpu W)
      → IsPerCycle c
      → Took true (op_ticks op m) c (exec bus op addr m c).1
  exec-ticks op addr m c h = (Counts-exec op addr m).at c h
