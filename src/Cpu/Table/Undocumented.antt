-- ===== src/Cpu/Table/Undocumented.antt =====
-- The undocumented NMOS rows, in the order of `init` in cpu/opcodes_illegal.go.
use chippy.Prelude.{true, false, List, [], ◌∷◌}
use chippy.Cpu.Addressing.{abs, abx, aby, imm, imp, izx, izy, zp, zpx, zpy}
use chippy.Cpu.Instr.{
  dcp, isc, nop, op_alr, op_anc, op_arr, op_las, op_lax, op_lxa, op_nop2, op_nop3, op_rla, op_sax,
  op_sbx, op_sha, op_shx, op_shy, op_slo, op_sre, op_xaa, rra, sbc, tas,
}
use chippy.Cpu.Table.Row.{Row, row}

unfoldable pub illegal_rows : List Row
unfolding row
illegal_rows =
    row 0xA7 "LAX" zp 2 3 false op_lax
    ∷ row 0xB7 "LAX" zpy 2 4 false op_lax
    ∷ row 0xAF "LAX" abs 3 4 false op_lax
    ∷ row 0xBF "LAX" aby 3 4 true op_lax
    ∷ row 0xA3 "LAX" izx 2 6 false op_lax
    ∷ row 0xB3 "LAX" izy 2 5 true op_lax
    ∷ row 0x87 "SAX" zp 2 3 false op_sax
    ∷ row 0x97 "SAX" zpy 2 4 false op_sax
    ∷ row 0x8F "SAX" abs 3 4 false op_sax
    ∷ row 0x83 "SAX" izx 2 6 false op_sax
    ∷ row 0xC7 "DCP" zp 2 5 false dcp
    ∷ row 0xD7 "DCP" zpx 2 6 false dcp
    ∷ row 0xCF "DCP" abs 3 6 false dcp
    ∷ row 0xDF "DCP" abx 3 7 false dcp
    ∷ row 0xDB "DCP" aby 3 7 false dcp
    ∷ row 0xC3 "DCP" izx 2 8 false dcp
    ∷ row 0xD3 "DCP" izy 2 8 false dcp
    ∷ row 0xE7 "ISC" zp 2 5 false isc
    ∷ row 0xF7 "ISC" zpx 2 6 false isc
    ∷ row 0xEF "ISC" abs 3 6 false isc
    ∷ row 0xFF "ISC" abx 3 7 false isc
    ∷ row 0xFB "ISC" aby 3 7 false isc
    ∷ row 0xE3 "ISC" izx 2 8 false isc
    ∷ row 0xF3 "ISC" izy 2 8 false isc
    ∷ row 0x07 "SLO" zp 2 5 false op_slo
    ∷ row 0x17 "SLO" zpx 2 6 false op_slo
    ∷ row 0x0F "SLO" abs 3 6 false op_slo
    ∷ row 0x1F "SLO" abx 3 7 false op_slo
    ∷ row 0x1B "SLO" aby 3 7 false op_slo
    ∷ row 0x03 "SLO" izx 2 8 false op_slo
    ∷ row 0x13 "SLO" izy 2 8 false op_slo
    ∷ row 0x27 "RLA" zp 2 5 false op_rla
    ∷ row 0x37 "RLA" zpx 2 6 false op_rla
    ∷ row 0x2F "RLA" abs 3 6 false op_rla
    ∷ row 0x3F "RLA" abx 3 7 false op_rla
    ∷ row 0x3B "RLA" aby 3 7 false op_rla
    ∷ row 0x23 "RLA" izx 2 8 false op_rla
    ∷ row 0x33 "RLA" izy 2 8 false op_rla
    ∷ row 0x47 "SRE" zp 2 5 false op_sre
    ∷ row 0x57 "SRE" zpx 2 6 false op_sre
    ∷ row 0x4F "SRE" abs 3 6 false op_sre
    ∷ row 0x5F "SRE" abx 3 7 false op_sre
    ∷ row 0x5B "SRE" aby 3 7 false op_sre
    ∷ row 0x43 "SRE" izx 2 8 false op_sre
    ∷ row 0x53 "SRE" izy 2 8 false op_sre
    ∷ row 0x67 "RRA" zp 2 5 false rra
    ∷ row 0x77 "RRA" zpx 2 6 false rra
    ∷ row 0x6F "RRA" abs 3 6 false rra
    ∷ row 0x7F "RRA" abx 3 7 false rra
    ∷ row 0x7B "RRA" aby 3 7 false rra
    ∷ row 0x63 "RRA" izx 2 8 false rra
    ∷ row 0x73 "RRA" izy 2 8 false rra
    ∷ row 0x0B "ANC" imm 2 2 false op_anc
    ∷ row 0x2B "ANC" imm 2 2 false op_anc
    ∷ row 0x4B "ALR" imm 2 2 false op_alr
    ∷ row 0x6B "ARR" imm 2 2 false op_arr
    ∷ row 0xCB "SBX" imm 2 2 false op_sbx
    ∷ row 0xEB "SBC" imm 2 2 false sbc
    ∷ row 0x1A "NOP" imp 1 2 false nop
    ∷ row 0x3A "NOP" imp 1 2 false nop
    ∷ row 0x5A "NOP" imp 1 2 false nop
    ∷ row 0x7A "NOP" imp 1 2 false nop
    ∷ row 0xDA "NOP" imp 1 2 false nop
    ∷ row 0xFA "NOP" imp 1 2 false nop
    ∷ row 0x80 "NOP" imm 2 2 false op_nop2
    ∷ row 0x82 "NOP" imm 2 2 false op_nop2
    ∷ row 0x89 "NOP" imm 2 2 false op_nop2
    ∷ row 0xC2 "NOP" imm 2 2 false op_nop2
    ∷ row 0xE2 "NOP" imm 2 2 false op_nop2
    ∷ row 0x04 "NOP" zp 2 3 false op_nop2
    ∷ row 0x44 "NOP" zp 2 3 false op_nop2
    ∷ row 0x64 "NOP" zp 2 3 false op_nop2
    ∷ row 0x14 "NOP" zpx 2 4 false op_nop2
    ∷ row 0x34 "NOP" zpx 2 4 false op_nop2
    ∷ row 0x54 "NOP" zpx 2 4 false op_nop2
    ∷ row 0x74 "NOP" zpx 2 4 false op_nop2
    ∷ row 0xD4 "NOP" zpx 2 4 false op_nop2
    ∷ row 0xF4 "NOP" zpx 2 4 false op_nop2
    ∷ row 0x0C "NOP" abs 3 4 false op_nop3
    ∷ row 0x1C "NOP" abx 3 4 true op_nop3
    ∷ row 0x3C "NOP" abx 3 4 true op_nop3
    ∷ row 0x5C "NOP" abx 3 4 true op_nop3
    ∷ row 0x7C "NOP" abx 3 4 true op_nop3
    ∷ row 0xDC "NOP" abx 3 4 true op_nop3
    ∷ row 0xFC "NOP" abx 3 4 true op_nop3
    ∷ row 0x8B "XAA" imm 2 2 false op_xaa
    ∷ row 0xAB "LXA" imm 2 2 false op_lxa
    ∷ row 0x93 "SHA" izy 2 6 false op_sha
    ∷ row 0x9F "SHA" aby 3 5 false op_sha
    ∷ row 0x9C "SHY" abx 3 5 false op_shy
    ∷ row 0x9E "SHX" aby 3 5 false op_shx
    ∷ row 0x9B "TAS" aby 3 5 false tas
    ∷ row 0xBB "LAS" aby 3 4 true op_las
    ∷ []
