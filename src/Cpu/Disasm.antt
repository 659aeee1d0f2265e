-- ===== src/Cpu/Disasm.antt =====
-- cpu/disasm.go on the 8-bit variants: the text of an instruction, and the way back from an address.
-- `read` is the bus as an inspector sees it, whose reads change nothing.
pub mod Walk
pub mod Ways
use Prim.Native.String.{◌++◌ as ◌<>◌, len}
use text.Mathlib.Text.{◌==◌ as str_eq}
use chippy.Prelude.{
  ℕ, zero, suc, ◌+◌, ◌-◌, ◌*◌, ◌/◌, ◌%◌, Bool, true, false, not, ◌&&◌, ◌||◌, Option, none, some,
  List, [], ◌∷◌, String, u8, u16, bit_or, add_signed8, length, drop, ltb, ◌==◌, if◌then◌else◌,
}
use chippy.Cpu.State.{Cpu, Variant}
use chippy.Cpu.Addressing.{
  AddrMode, imp, acc, imm, zp, zpx, zpy, rel, abs, abx, aby, ind, izx, izy, izp, iax, zpr, jsrabs,
}
use chippy.Cpu.Instr.{Instr}

-- `%X` of a number below 16.
unfoldable pub hex_digit : ℕ → String
hex_digit d =
    if d == 0
    then "0"
    else if d == 1
    then "1"
    else if d == 2
    then "2"
    else if d == 3
    then "3"
    else if d == 4
    then "4"
    else if d == 5
    then "5"
    else if d == 6
    then "6"
    else if d == 7
    then "7"
    else if d == 8
    then "8"
    else if d == 9
    then "9"
    else if d == 10
    then "A"
    else if d == 11
    then "B"
    else if d == 12
    then "C"
    else if d == 13
    then "D"
    else if d == 14
    then "E"
    else "F"

-- `$%02X` and `$%04X`
unfoldable pub hex2 : ℕ → String
unfolding hex_digit
hex2 b = "$" <> (hex_digit (b / 16) <> hex_digit (b % 16))

unfoldable pub hex4 : ℕ → String
unfolding hex_digit
hex4 w =
    "$"
    <> (hex_digit (w / 4096)
        <> (hex_digit (w / 256 % 16) <> (hex_digit (w / 16 % 16) <> hex_digit (w % 16))))

-- `%-4s`
unfoldable pub padded : String → String
padded s =
    if len s == 0
    then s <> "    "
    else if len s == 1
    then s <> "   "
    else if len s == 2
    then s <> "  "
    else if len s == 3
    then s <> " "
    else s

abbrev pub SymLookup : Type 0
SymLookup = Option (ℕ → String)

-- A symbol's name, or the fallback where the lookup has none.
unfoldable pub named : SymLookup → ℕ → String → String
named none a fallback = fallback
named (some sym) a fallback = if str_eq (sym a) "" then fallback else sym a

unfoldable pub zero_page_name : SymLookup → ℕ → String
unfolding named hex2
zero_page_name sym b = named sym b (hex2 b)

unfoldable pub word_name : SymLookup → ℕ → String
unfolding named hex4
word_name sym w = named sym w (hex4 w)

-- The operand of the instruction at `addr`, from its second and third byte.
unfoldable pub operand_text : SymLookup → AddrMode → ℕ → ℕ → ℕ → String
unfolding zero_page_name word_name hex2 add_signed8
operand_text sym imp addr b1 b2 = ""
operand_text sym acc addr b1 b2 = "A"
operand_text sym imm addr b1 b2 = "#" <> hex2 b1
operand_text sym zp addr b1 b2 = zero_page_name sym b1
operand_text sym zpx addr b1 b2 = zero_page_name sym b1 <> ",X"
operand_text sym zpy addr b1 b2 = zero_page_name sym b1 <> ",Y"
operand_text sym rel addr b1 b2 = word_name sym (add_signed8 (u16 (addr + 2)) b1)
operand_text sym abs addr b1 b2 = word_name sym (bit_or (b2 * 256) b1)
operand_text sym jsrabs addr b1 b2 = word_name sym (bit_or (b2 * 256) b1)
operand_text sym abx addr b1 b2 = word_name sym (bit_or (b2 * 256) b1) <> ",X"
operand_text sym aby addr b1 b2 = word_name sym (bit_or (b2 * 256) b1) <> ",Y"
operand_text sym ind addr b1 b2 = "(" <> (word_name sym (bit_or (b2 * 256) b1) <> ")")
operand_text sym izx addr b1 b2 = "(" <> (zero_page_name sym b1 <> ",X)")
operand_text sym izy addr b1 b2 = "(" <> (zero_page_name sym b1 <> "),Y")
operand_text sym izp addr b1 b2 = "(" <> (zero_page_name sym b1 <> ")")
operand_text sym iax addr b1 b2 = "(" <> (word_name sym (bit_or (b2 * 256) b1) <> ",X)")
operand_text sym zpr addr b1 b2 =
    hex2 b1 <> ("," <> word_name sym (add_signed8 (u16 (addr + 3)) b2))

unfoldable pub disasm_with_table : (ℕ → Instr) → SymLookup → (ℕ → ℕ) → ℕ → String × ℕ
unfolding operand_text padded
disasm_with_table table sym read addr =
    let i = table (read addr) in
    let text = operand_text sym i.mode addr (read (u16 (addr + 1))) (read (u16 (addr + 2))) in
    (padded i.name <> (" " <> text), if i.bytes == 1 then 1 else i.bytes)

abbrev pub consed : ℕ → Option (List ℕ) → Option (List ℕ)
consed cur none = none
consed cur (some l) = some (cur ∷ l)

abbrev pub first : List ℕ → ℕ
first [] = 0
first (a ∷ l) = a

-- More instructions win, and of as many the earlier start.
unfoldable pub better : List ℕ → List ℕ → Bool
better seq best =
    ltb (length best) (length seq)
    || (length seq == length best
        && ltb 0 (length seq)
        && (length best == 0 || ltb (first seq) (first best)))

unfoldable pub chosen : Option (List ℕ) → List ℕ → List ℕ
unfolding better
chosen none best = best
chosen (some seq) best = if better seq best then seq else best

abbrev pub max_look : ℕ
max_look = 64

module _ (table : ℕ → Instr) (read : ℕ → ℕ) (pc : ℕ) where
  -- The instruction starts from `cur` to `pc`, if decoding from `cur` hits `pc`. Each instruction has a
  -- byte at least: the fuel is one above the bytes to `pc`.
  unfoldable pub decode_to : ℕ → ℕ → Option (List ℕ)
  unfolding disasm_with_table
  decode_to zero cur = none
  decode_to (suc fuel) cur =
      let next : ℕ = cur + (disasm_with_table table none read cur).1 in
      let rest = decode_to fuel (u16 next) in
      if ltb cur pc
      then (if ltb pc next then none else consed cur rest)
      else if cur == pc
      then some []
      else none

  -- The rounds from `back` on.
  unfoldable pub best_from : ℕ → ℕ → List ℕ → List ℕ
  unfolding decode_to chosen
  best_from zero back best = best
  best_from (suc rounds) back best =
      let rest = best_from rounds (back + 1) (chosen (decode_to (back + 1) (pc - back)) best) in
      if ltb pc back then best else rest

  unfoldable pub walk_back : ℕ → List ℕ
  unfolding best_from
  walk_back n =
      let best : List ℕ = best_from max_look 1 [] in
      if n == 0 || pc == 0
      then []
      else if ltb n (length best)
      then drop (length best - n) best
      else best
