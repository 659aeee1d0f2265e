-- ===== src/Tests/Wide.antt =====
-- A 65816 on a bus that counts its accesses, and on a flat memory.
use chippy.Prelude.{
  ℕ, ◌+◌, ◌-◌, ◌*◌, ◌≤◌, ◌≡◌, ◌%◌, refl, true, false, none, some, and_not8, word, arith,
}
use chippy.Cpu.State.{Bus}
use chippy.Cpu.Flags.{flag_c, with_flag}
use chippy.W65816.State.{Regs, Cpu, Bus24, ◌>>=◌, on_regs}
use chippy.W65816.Transfer.{xce}
use chippy.W65816.Width.{a16, m_wide, x16, y16, x_wide, set_flag, has_flag, sp16}
use chippy.W65816.Control.{block_move, set_pc}
use chippy.W65816.Access.{fetch816}
use chippy.W65816.Inline.{jsl_long, op_rtl}
use chippy.W65816.Calls.{flat, fetch816-IsBalanced, op_rtl-jsl_long}
use chippy.W65816.Step.{step, reset, reset_regs, read_bus}
use chippy.W65816.Counted.Rules.{CountsOn}
use chippy.W65816.Counted.Whole.{step-counts}
use chippy.W65816.Locked.Rules.{IsLocked}
use chippy.W65816.Locked.Step.{Reached-IsLocked, powered, stepped}
use chippy.W65816.Alu.{adc816, carry_in}
use chippy.W65816.Sums.{HasSum, adc816-adds}
use chippy.W65816.Moves.{block_move-ends}
use chippy.Tests.{quiet_lines}

-- Native mode, 16-bit accumulator and 8-bit index registers, DL not 0.
abbrev wide_regs : Regs
wide_regs = record {
  a = 2;
  b = 0;
  x = 5;
  xh = 0;
  y = 0xFF;
  yh = 0;
  sp = 0xFF;
  sp_hi = 1;
  p = 0x10;
  pc = 0x0200;
  d = 0x0012;
  dbr = 1;
  pbr = 0;
  e = false;
}

abbrev wide_machine : Cpu ℕ
wide_machine = record {
  regs = wide_regs;
  pins = record { bus_pins = 0; bus_e = false; bus_m = false; bus_x = false; opcode_fetch = false };
  env = record { lines = quiet_lines; world = 0 };
  cycles = 7;
  halted = false;
  stopped_by_stp = false;
  abort_pending = false;
  nmi_due = false;
  irq_due = false;
}

-- Every byte of the memory is 0x71, ADC (dp),Y, and the world counts the accesses.
abbrev counting_bus : Bus24 ℕ
counting_bus = record {
  read24 = λ a env. (0x71, record env { world = env.world + 1 });
  write24 = λ a v env. record env { world = env.world + 1 };
}

counting_bus-CountsOn : CountsOn counting_bus (λ e. e.world)
counting_bus-CountsOn = record { read = λ a e. refl; write = λ a v e. refl }

step-counts_example :
    let d = step counting_bus wide_machine in (d.0 ≡ some (d.1.env.world - 0)) × (0 ≤ d.1.env.world)
step-counts_example =
    step-counts (λ n. n) counting_bus counting_bus-CountsOn wide_machine (omega arith)
      (λ _. (omega arith, refl))

-- The same memory on the 16-bit bus that Reset reads.
abbrev reset_bus : Bus ℕ
reset_bus = record {
  read = λ a env. (0x71, env);
  write = λ a v env. env;
  bus_ticker = none;
  dma_bus = none;
  access_hook = none;
  ppu_runner = none;
  dmc_fetcher = none;
}

abbrev powered_up : Cpu ℕ
powered_up = (reset reset_bus wide_machine).1

Reached-IsLocked_example : IsLocked true (step counting_bus powered_up).1.regs
Reached-IsLocked_example =
    Reached-IsLocked counting_bus reset_bus (stepped (powered wide_machine) refl)

block_move-ends_example :
    let d = block_move counting_bus 0xFFFF wide_machine in
    (d.0 ≡ 7 * 3) × (a16 d.1.regs ≡ 0xFFFF) × (x16 d.1.regs ≡ 2) × (y16 d.1.regs ≡ 0xFC)
unfolding a16 x16 y16 word
block_move-ends_example = block_move-ends counting_bus 0xFFFF wide_machine (omega arith)

-- 0x7FFF in a 16-bit accumulator, C set.
abbrev largest : Regs
largest = record wide_regs { a = 0xFF; b = 0x7F; p = 0x11 }

adc816-adds_example : HasSum largest (adc816 0x8001 largest) 0x10001 false
unfolding a16 word carry_in has_flag m_wide
adc816-adds_example = adc816-adds largest 0x8001 refl refl (omega arith) (omega arith) (omega arith)

-- In native mode, with the operand of the JSL at 0xFFFE of bank 3 and the pointer at 1.
abbrev caller : Cpu (ℕ → ℕ)
caller = record {
  regs = record wide_regs { pc = 0xFFFE; pbr = 3; sp = 1; sp_hi = 0 };
  pins = wide_machine.pins;
  env = record { lines = quiet_lines; world = λ a. a % 251 };
  cycles = 0;
  halted = false;
  stopped_by_stp = false;
  abort_pending = false;
  nmi_due = false;
  irq_due = false;
}

-- The subroutine: the opcode fetch of RTL alone.
abbrev callee : Cpu (ℕ → ℕ)
callee = (fetch816 flat (jsl_long flat caller).1).1

op_rtl-jsl_long_example :
    let r = (op_rtl flat callee).1.regs in (r.pc ≡ 1) × (r.pbr ≡ 3) × (sp16 r ≡ 1)
unfolding sp16 word
op_rtl-jsl_long_example =
    op_rtl-jsl_long caller callee refl (omega arith) (fetch816-IsBalanced (jsl_long flat caller).1)

-- From Reset, CLC and XCE lead to 16-bit index registers.
native_from_reset : x_wide (xce (set_flag flag_c false powered_up.regs)) ≡ true
unfolding xce set_flag x_wide reset reset_regs read_bus set_pc ◌>>=◌ on_regs has_flag with_flag
    and_not8
native_from_reset = refl
