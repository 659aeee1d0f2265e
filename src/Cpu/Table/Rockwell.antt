-- ===== src/Cpu/Table/Rockwell.antt =====
-- The rows of the 65C02 that `init` of cpu/opcodes_cmos.go writes out.
use chippy.Prelude.{true, false, List, [], ◌∷◌}
use chippy.Cpu.Addressing.{abs, abx, acc, iax, imm, imp, ind, izp, rel, zp, zpx}
use chippy.Cpu.Instr.{
  adc, op_and, op_asl, op_bit, op_bit_imm, op_bra, op_cmp, op_dea, op_eor, op_ina, op_jmp, op_lda,
  op_lsr, op_ora, op_phx, op_phy, op_plx, op_ply, op_rol, op_ror, op_sta, op_stz, op_trb, op_tsb,
  sbc,
}
use chippy.Cpu.Table.Row.{Row, row}

unfoldable pub cmos_rows : List Row
unfolding row
cmos_rows =
    row 0x80 "BRA" rel 2 2 false op_bra
    ∷ row 0xDA "PHX" imp 1 3 false op_phx
    ∷ row 0x5A "PHY" imp 1 3 false op_phy
    ∷ row 0xFA "PLX" imp 1 4 false op_plx
    ∷ row 0x7A "PLY" imp 1 4 false op_ply
    ∷ row 0x64 "STZ" zp 2 3 false op_stz
    ∷ row 0x74 "STZ" zpx 2 4 false op_stz
    ∷ row 0x9C "STZ" abs 3 4 false op_stz
    ∷ row 0x9E "STZ" abx 3 5 false op_stz
    ∷ row 0x14 "TRB" zp 2 5 false op_trb
    ∷ row 0x1C "TRB" abs 3 6 false op_trb
    ∷ row 0x04 "TSB" zp 2 5 false op_tsb
    ∷ row 0x0C "TSB" abs 3 6 false op_tsb
    ∷ row 0x1A "INC" acc 1 2 false op_ina
    ∷ row 0x3A "DEC" acc 1 2 false op_dea
    ∷ row 0x7C "JMP" iax 3 6 false op_jmp
    ∷ row 0x6C "JMP" ind 3 6 false op_jmp
    ∷ row 0x1E "ASL" abx 3 6 true op_asl
    ∷ row 0x3E "ROL" abx 3 6 true op_rol
    ∷ row 0x5E "LSR" abx 3 6 true op_lsr
    ∷ row 0x7E "ROR" abx 3 6 true op_ror
    ∷ row 0x89 "BIT" imm 2 2 false op_bit_imm
    ∷ row 0x34 "BIT" zpx 2 4 false op_bit
    ∷ row 0x3C "BIT" abx 3 4 true op_bit
    ∷ row 0x12 "ORA" izp 2 5 false op_ora
    ∷ row 0x32 "AND" izp 2 5 false op_and
    ∷ row 0x52 "EOR" izp 2 5 false op_eor
    ∷ row 0x72 "ADC" izp 2 5 false adc
    ∷ row 0x92 "STA" izp 2 5 false op_sta
    ∷ row 0xB2 "LDA" izp 2 5 false op_lda
    ∷ row 0xD2 "CMP" izp 2 5 false op_cmp
    ∷ row 0xF2 "SBC" izp 2 5 false sbc
    ∷ []
