-- ===== src/Peripheral/Acia.antt =====
-- peripheral/acia.go: the 6551 serial port. Its interrupt sink is the CPU's `Lines`; `wired` says
-- that SetIRQ has been called.
pub mod Linked
pub mod Saved
use chippy.Prelude.{
  ℕ, ◌+◌, ◌-◌, ◌*◌, ◌/◌, Bool, true, false, not, ◌&&◌, List, [], ◌∷◌, ◌++◌, String, u8, u16,
  hi_byte, bit_and, bit_or, and_not8, nonzero, length, take, drop, ltb, ◌==◌, if◌then◌else◌,
}
use chippy.Cpu.State.{Lines}
use chippy.Cpu.Lines.{assert_irq_source, clear_irq_source, is_empty}

pub record Acia : Type 0 where
  pub base : ℕ
  pub wired : Bool
  pub tx_cap : ℕ
  pub tx : List ℕ
  pub rxq : List ℕ
  pub command : ℕ
  pub control : ℕ
  pub irq_flag : Bool

-- The device with the lines that it drives.
abbrev pub Port : Type 0
Port = Acia × Lines

abbrev pub acia_irq_source : String
acia_irq_source = "acia"

unfoldable pub new_acia : ℕ → Acia
new_acia base = record {
  base = base;
  wired = false;
  tx_cap = 65536;
  tx = [];
  rxq = [];
  command = 0;
  control = 0;
  irq_flag = false;
}

unfoldable pub set_irq : Acia → Acia
set_irq a = record a { wired = true }

unfoldable pub rx_irq_enabled : ℕ → Bool
rx_irq_enabled command = bit_and command 2 == 0

unfoldable pub status : Acia → ℕ
status a =
    let s : ℕ = if is_empty a.rxq then 0x10 else bit_or 0x10 0x08 in
    if a.irq_flag then bit_or s 0x80 else s

unfoldable pub clear_irq : Port → Port
clear_irq (a, l) =
    if a.irq_flag
    then (record a { irq_flag = false }, if a.wired then clear_irq_source acia_irq_source l else l)
    else (a, l)

unfoldable pub raise_rx : Port → Port
raise_rx (a, l) =
    (record a { irq_flag = true }, if a.wired then assert_irq_source acia_irq_source l else l)

abbrev pub head_or_zero : List ℕ → ℕ
head_or_zero [] = 0
head_or_zero (b ∷ q) = b

-- `addr - a.Base`
unfoldable pub offset : Acia → ℕ → ℕ
offset a addr = u16 (addr + 65536 - a.base)

unfoldable pub read_data : Port → ℕ × Port
unfolding clear_irq
read_data (a, l) =
    let a' = record a { rxq = drop 1 a.rxq } in
    (head_or_zero a.rxq, if is_empty a'.rxq then clear_irq (a', l) else (a', l))

unfoldable pub read : ℕ → Port → ℕ × Port
unfolding offset read_data status clear_irq
read addr (a, l) =
    let o = offset a addr in
    if o == 0
    then read_data (a, l)
    else if o == 1
    then (status a, clear_irq (a, l))
    else if o == 2
    then (a.command, (a, l))
    else if o == 3
    then (a.control, (a, l))
    else (0, (a, l))

unfoldable pub peek : ℕ → Acia → ℕ
unfolding offset status
peek addr a =
    let o = offset a addr in
    if o == 0
    then head_or_zero a.rxq
    else if o == 1
    then status a
    else if o == 2
    then a.command
    else if o == 3
    then a.control
    else 0

-- `buf[drop:]` for a full buffer: a quarter of its capacity, and one byte at least.
unfoldable pub make_room : ℕ → List ℕ → List ℕ
make_room cap buf =
    if ltb 0 cap && not (ltb (length buf) cap)
    then drop (if ltb (cap / 4) 1 then 1 else cap / 4) buf
    else buf

unfoldable pub write_command : ℕ → Port → Port
unfolding rx_irq_enabled clear_irq raise_rx
write_command v (a, l) =
    let a' = record a { command = v } in
    if rx_irq_enabled v && not (is_empty a.rxq)
    then raise_rx (a', l)
    else if not (rx_irq_enabled v)
    then clear_irq (a', l)
    else (a', l)

unfoldable pub write : ℕ → ℕ → Port → Port
unfolding offset make_room write_command clear_irq and_not8
write addr v (a, l) =
    let o = offset a addr in
    if o == 0
    then (record a { tx = make_room a.tx_cap a.tx ++ v ∷ [] }, l)
    else if o == 1
    then clear_irq (record a { command = and_not8 a.command 0x1F }, l)
    else if o == 2
    then write_command v (a, l)
    else if o == 3
    then (record a { control = v }, l)
    else (a, l)

unfoldable pub receive : ℕ → Port → Port
unfolding rx_irq_enabled raise_rx
receive b (a, l) =
    let a' = record a { rxq = a.rxq ++ b ∷ [] } in
    if rx_irq_enabled a.command then raise_rx (a', l) else (a', l)

unfoldable pub reset_tx : Acia → Acia
reset_tx a = record a { tx = [] }

unfoldable pub snapshot : Acia → List ℕ
snapshot a =
    a.command
    ∷ a.control
    ∷ (if a.irq_flag then 1 else 0)
    ∷ hi_byte (length a.rxq)
    ∷ u8 (length a.rxq)
    ∷ (a.rxq ++ a.tx)

unfoldable pub restore : List ℕ → Acia → Acia
restore (command ∷ control ∷ irq ∷ hi ∷ lo ∷ rest) a =
    let n = bit_or (hi * 256) lo in
    let k = if ltb (length rest) n then length rest else n in
    record a {
      command = command;
      control = control;
      irq_flag = nonzero irq;
      rxq = take k rest;
      tx = drop k rest;
    }
restore short a = record a { command = 0; control = 0; irq_flag = false; rxq = []; tx = [] }
