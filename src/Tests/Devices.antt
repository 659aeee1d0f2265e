-- ===== src/Tests/Devices.antt =====
-- A serial port, a text port and a device on the bus.
use chippy.Prelude.{◌≡◌, refl, true, false, none, some, [], ◌∷◌, arith}
use chippy.Cpu.State.{Env}
use chippy.Cpu.Lines.{has_source}
use chippy.Memory.{Ram, ram_bus}
use chippy.Mmio
use chippy.Mmio.{Peripheral, Mmio, register, any_overlaps, new_mmio, dispatch_write}
use chippy.Mmio.Dispatch.{register-serves}
use chippy.Peripheral.Acia
use chippy.Peripheral.Acia.{Acia, acia_irq_source, new_acia, set_irq}
use chippy.Peripheral.Acia.Saved.{restore-snapshot}
use chippy.Peripheral.Acia.Linked.{
  IsLinked, port_events, cpu_read, cpu_write, host_byte, port_events-IsLinked,
}
use chippy.Peripheral.TextOutput.{TextOutput}
use chippy.Peripheral.TextOutput.Bounds.{IsTail, transcript, write_all, write_all-IsTail}
use chippy.Tests.{quiet_lines, ram_of}

abbrev port : Acia
port = record {
  base = 0x8000;
  wired = true;
  tx_cap = 65536;
  tx = 67 ∷ [];
  rxq = 65 ∷ 66 ∷ [];
  command = 9;
  control = 0;
  irq_flag = true;
}

abbrev other_port : Acia
other_port = record port { base = 0x9000; command = 0; irq_flag = false }

restore-snapshot_example :
    Acia.restore (Acia.snapshot port) other_port
    ≡ record port { base = 0x9000; wired = true; tx_cap = 65536 }
restore-snapshot_example = restore-snapshot port other_port (omega arith)

-- A byte arrives and is read.
port_events-IsLinked_example : IsLinked quiet_lines (
    port_events
      (cpu_write 0x8002 9 ∷ host_byte 65 ∷ cpu_read 0x8000 ∷ [])
      (set_irq (new_acia 0x8000), quiet_lines))
unfolding has_source
port_events-IsLinked_example =
    port_events-IsLinked 0x8000 quiet_lines
      (cpu_write 0x8002 9 ∷ host_byte 65 ∷ cpu_read 0x8000 ∷ []) refl

-- A port of two bytes, after three.
abbrev small_port : TextOutput
small_port = record { addr = 0xF001; cap = 2; buf = [] }

write_all-IsTail_example :
    IsTail
      (transcript 0xF001 ((0xF001, 65) ∷ (0xF001, 66) ∷ (0xF001, 67) ∷ []) [])
      (write_all ((0xF001, 65) ∷ (0xF001, 66) ∷ (0xF001, 67) ∷ []) small_port)
write_all-IsTail_example =
    write_all-IsTail ((0xF001, 65) ∷ (0xF001, 66) ∷ (0xF001, 67) ∷ []) [] small_port (omega arith)
      (record { lost = 0; lost_le = omega arith; fits = omega arith; tail = refl })

-- A device that reads as 7.
abbrev seven : Peripheral Ram
seven = record {
  lo = 0xF000;
  hi = 0xF0FF;
  read = λ a e. (7, e);
  write = λ a v e. e;
  tick = none;
  peek = none;
}

abbrev bare : Mmio Ram
bare = new_mmio ram_bus

abbrev with_seven : Mmio Ram
with_seven = record bare { peripherals = seven ∷ [] }

seven_registered : register seven bare ≡ some with_seven
unfolding register any_overlaps new_mmio
seven_registered = refl

abbrev idle_env : Env Ram
idle_env = record { lines = quiet_lines; world = ram_of λ a. 0 }

register-serves_example :
    (Mmio.read with_seven 0xF012 idle_env ≡ (7, idle_env))
    × (dispatch_write with_seven 0xF012 1 idle_env ≡ idle_env)
register-serves_example = register-serves seven bare with_seven 0xF012 1 idle_env seven_registered
