-- ===== src/Cpu/Table/Legal.antt =====
-- The documented NMOS rows, in the order of `init` in cpu/opcodes.go.
use chippy.Prelude.{true, false, List, [], ◌∷◌}
use chippy.Cpu.Addressing.{abs, abx, aby, acc, imm, imp, ind, izx, izy, jsrabs, rel, zp, zpx, zpy}
use chippy.Cpu.Instr.{
  adc, brk, jsr, nop, op_and, op_asl, op_bcc, op_bcs, op_beq, op_bit, op_bmi, op_bne, op_bpl,
  op_bvc, op_bvs, op_clc, op_cld, op_cli, op_clv, op_cmp, op_cpx, op_cpy, op_dec, op_dex, op_dey,
  op_eor, op_inc, op_inx, op_iny, op_jmp, op_lda, op_ldx, op_ldy, op_lsr, op_ora, op_rol, op_ror,
  op_sec, op_sed, op_sei, op_sta, op_stx, op_sty, op_tax, op_tay, op_tsx, op_txa, op_txs, op_tya,
  pha, php, pla, plp, rti, rts, sbc,
}
use chippy.Cpu.Table.Row.{Row, row}

unfoldable pub legal_rows : List Row
unfolding row
legal_rows =
    row 0xA9 "LDA" imm 2 2 false op_lda
    ∷ row 0xA5 "LDA" zp 2 3 false op_lda
    ∷ row 0xB5 "LDA" zpx 2 4 false op_lda
    ∷ row 0xAD "LDA" abs 3 4 false op_lda
    ∷ row 0xBD "LDA" abx 3 4 true op_lda
    ∷ row 0xB9 "LDA" aby 3 4 true op_lda
    ∷ row 0xA1 "LDA" izx 2 6 false op_lda
    ∷ row 0xB1 "LDA" izy 2 5 true op_lda
    ∷ row 0xA2 "LDX" imm 2 2 false op_ldx
    ∷ row 0xA6 "LDX" zp 2 3 false op_ldx
    ∷ row 0xB6 "LDX" zpy 2 4 false op_ldx
    ∷ row 0xAE "LDX" abs 3 4 false op_ldx
    ∷ row 0xBE "LDX" aby 3 4 true op_ldx
    ∷ row 0xA0 "LDY" imm 2 2 false op_ldy
    ∷ row 0xA4 "LDY" zp 2 3 false op_ldy
    ∷ row 0xB4 "LDY" zpx 2 4 false op_ldy
    ∷ row 0xAC "LDY" abs 3 4 false op_ldy
    ∷ row 0xBC "LDY" abx 3 4 true op_ldy
    ∷ row 0x85 "STA" zp 2 3 false op_sta
    ∷ row 0x95 "STA" zpx 2 4 false op_sta
    ∷ row 0x8D "STA" abs 3 4 false op_sta
    ∷ row 0x9D "STA" abx 3 5 false op_sta
    ∷ row 0x99 "STA" aby 3 5 false op_sta
    ∷ row 0x81 "STA" izx 2 6 false op_sta
    ∷ row 0x91 "STA" izy 2 6 false op_sta
    ∷ row 0x86 "STX" zp 2 3 false op_stx
    ∷ row 0x96 "STX" zpy 2 4 false op_stx
    ∷ row 0x8E "STX" abs 3 4 false op_stx
    ∷ row 0x84 "STY" zp 2 3 false op_sty
    ∷ row 0x94 "STY" zpx 2 4 false op_sty
    ∷ row 0x8C "STY" abs 3 4 false op_sty
    ∷ row 0xAA "TAX" imp 1 2 false op_tax
    ∷ row 0xA8 "TAY" imp 1 2 false op_tay
    ∷ row 0xBA "TSX" imp 1 2 false op_tsx
    ∷ row 0x8A "TXA" imp 1 2 false op_txa
    ∷ row 0x9A "TXS" imp 1 2 false op_txs
    ∷ row 0x98 "TYA" imp 1 2 false op_tya
    ∷ row 0x48 "PHA" imp 1 3 false pha
    ∷ row 0x08 "PHP" imp 1 3 false php
    ∷ row 0x68 "PLA" imp 1 4 false pla
    ∷ row 0x28 "PLP" imp 1 4 false plp
    ∷ row 0x29 "AND" imm 2 2 false op_and
    ∷ row 0x25 "AND" zp 2 3 false op_and
    ∷ row 0x35 "AND" zpx 2 4 false op_and
    ∷ row 0x2D "AND" abs 3 4 false op_and
    ∷ row 0x3D "AND" abx 3 4 true op_and
    ∷ row 0x39 "AND" aby 3 4 true op_and
    ∷ row 0x21 "AND" izx 2 6 false op_and
    ∷ row 0x31 "AND" izy 2 5 true op_and
    ∷ row 0x49 "EOR" imm 2 2 false op_eor
    ∷ row 0x45 "EOR" zp 2 3 false op_eor
    ∷ row 0x55 "EOR" zpx 2 4 false op_eor
    ∷ row 0x4D "EOR" abs 3 4 false op_eor
    ∷ row 0x5D "EOR" abx 3 4 true op_eor
    ∷ row 0x59 "EOR" aby 3 4 true op_eor
    ∷ row 0x41 "EOR" izx 2 6 false op_eor
    ∷ row 0x51 "EOR" izy 2 5 true op_eor
    ∷ row 0x09 "ORA" imm 2 2 false op_ora
    ∷ row 0x05 "ORA" zp 2 3 false op_ora
    ∷ row 0x15 "ORA" zpx 2 4 false op_ora
    ∷ row 0x0D "ORA" abs 3 4 false op_ora
    ∷ row 0x1D "ORA" abx 3 4 true op_ora
    ∷ row 0x19 "ORA" aby 3 4 true op_ora
    ∷ row 0x01 "ORA" izx 2 6 false op_ora
    ∷ row 0x11 "ORA" izy 2 5 true op_ora
    ∷ row 0x24 "BIT" zp 2 3 false op_bit
    ∷ row 0x2C "BIT" abs 3 4 false op_bit
    ∷ row 0x69 "ADC" imm 2 2 false adc
    ∷ row 0x65 "ADC" zp 2 3 false adc
    ∷ row 0x75 "ADC" zpx 2 4 false adc
    ∷ row 0x6D "ADC" abs 3 4 false adc
    ∷ row 0x7D "ADC" abx 3 4 true adc
    ∷ row 0x79 "ADC" aby 3 4 true adc
    ∷ row 0x61 "ADC" izx 2 6 false adc
    ∷ row 0x71 "ADC" izy 2 5 true adc
    ∷ row 0xE9 "SBC" imm 2 2 false sbc
    ∷ row 0xE5 "SBC" zp 2 3 false sbc
    ∷ row 0xF5 "SBC" zpx 2 4 false sbc
    ∷ row 0xED "SBC" abs 3 4 false sbc
    ∷ row 0xFD "SBC" abx 3 4 true sbc
    ∷ row 0xF9 "SBC" aby 3 4 true sbc
    ∷ row 0xE1 "SBC" izx 2 6 false sbc
    ∷ row 0xF1 "SBC" izy 2 5 true sbc
    ∷ row 0xC9 "CMP" imm 2 2 false op_cmp
    ∷ row 0xC5 "CMP" zp 2 3 false op_cmp
    ∷ row 0xD5 "CMP" zpx 2 4 false op_cmp
    ∷ row 0xCD "CMP" abs 3 4 false op_cmp
    ∷ row 0xDD "CMP" abx 3 4 true op_cmp
    ∷ row 0xD9 "CMP" aby 3 4 true op_cmp
    ∷ row 0xC1 "CMP" izx 2 6 false op_cmp
    ∷ row 0xD1 "CMP" izy 2 5 true op_cmp
    ∷ row 0xE0 "CPX" imm 2 2 false op_cpx
    ∷ row 0xE4 "CPX" zp 2 3 false op_cpx
    ∷ row 0xEC "CPX" abs 3 4 false op_cpx
    ∷ row 0xC0 "CPY" imm 2 2 false op_cpy
    ∷ row 0xC4 "CPY" zp 2 3 false op_cpy
    ∷ row 0xCC "CPY" abs 3 4 false op_cpy
    ∷ row 0xE6 "INC" zp 2 5 false op_inc
    ∷ row 0xF6 "INC" zpx 2 6 false op_inc
    ∷ row 0xEE "INC" abs 3 6 false op_inc
    ∷ row 0xFE "INC" abx 3 7 false op_inc
    ∷ row 0xC6 "DEC" zp 2 5 false op_dec
    ∷ row 0xD6 "DEC" zpx 2 6 false op_dec
    ∷ row 0xCE "DEC" abs 3 6 false op_dec
    ∷ row 0xDE "DEC" abx 3 7 false op_dec
    ∷ row 0xE8 "INX" imp 1 2 false op_inx
    ∷ row 0xC8 "INY" imp 1 2 false op_iny
    ∷ row 0xCA "DEX" imp 1 2 false op_dex
    ∷ row 0x88 "DEY" imp 1 2 false op_dey
    ∷ row 0x0A "ASL" acc 1 2 false op_asl
    ∷ row 0x06 "ASL" zp 2 5 false op_asl
    ∷ row 0x16 "ASL" zpx 2 6 false op_asl
    ∷ row 0x0E "ASL" abs 3 6 false op_asl
    ∷ row 0x1E "ASL" abx 3 7 false op_asl
    ∷ row 0x4A "LSR" acc 1 2 false op_lsr
    ∷ row 0x46 "LSR" zp 2 5 false op_lsr
    ∷ row 0x56 "LSR" zpx 2 6 false op_lsr
    ∷ row 0x4E "LSR" abs 3 6 false op_lsr
    ∷ row 0x5E "LSR" abx 3 7 false op_lsr
    ∷ row 0x2A "ROL" acc 1 2 false op_rol
    ∷ row 0x26 "ROL" zp 2 5 false op_rol
    ∷ row 0x36 "ROL" zpx 2 6 false op_rol
    ∷ row 0x2E "ROL" abs 3 6 false op_rol
    ∷ row 0x3E "ROL" abx 3 7 false op_rol
    ∷ row 0x6A "ROR" acc 1 2 false op_ror
    ∷ row 0x66 "ROR" zp 2 5 false op_ror
    ∷ row 0x76 "ROR" zpx 2 6 false op_ror
    ∷ row 0x6E "ROR" abs 3 6 false op_ror
    ∷ row 0x7E "ROR" abx 3 7 false op_ror
    ∷ row 0x4C "JMP" abs 3 3 false op_jmp
    ∷ row 0x6C "JMP" ind 3 5 false op_jmp
    ∷ row 0x20 "JSR" jsrabs 3 6 false jsr
    ∷ row 0x60 "RTS" imp 1 6 false rts
    ∷ row 0x40 "RTI" imp 1 6 false rti
    ∷ row 0x10 "BPL" rel 2 2 false op_bpl
    ∷ row 0x30 "BMI" rel 2 2 false op_bmi
    ∷ row 0x50 "BVC" rel 2 2 false op_bvc
    ∷ row 0x70 "BVS" rel 2 2 false op_bvs
    ∷ row 0x90 "BCC" rel 2 2 false op_bcc
    ∷ row 0xB0 "BCS" rel 2 2 false op_bcs
    ∷ row 0xD0 "BNE" rel 2 2 false op_bne
    ∷ row 0xF0 "BEQ" rel 2 2 false op_beq
    ∷ row 0x18 "CLC" imp 1 2 false op_clc
    ∷ row 0x38 "SEC" imp 1 2 false op_sec
    ∷ row 0x58 "CLI" imp 1 2 false op_cli
    ∷ row 0x78 "SEI" imp 1 2 false op_sei
    ∷ row 0xB8 "CLV" imp 1 2 false op_clv
    ∷ row 0xD8 "CLD" imp 1 2 false op_cld
    ∷ row 0xF8 "SED" imp 1 2 false op_sed
    ∷ row 0x00 "BRK" imp 1 7 false brk
    ∷ row 0xEA "NOP" imp 1 2 false nop
    ∷ []
