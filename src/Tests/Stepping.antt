-- ===== src/Tests/Stepping.antt =====
-- Steps of the NES core in per-cycle mode.
use chippy.Prelude.{u16, ◌+◌, ℕ, ◌≡◌, refl, Bool, true, false, some, arith, ◌==◌, if◌then◌else◌}
use chippy.Cpu.State.{Cpu, Bus, nes, nmos}
use chippy.Cpu.Addressing.{abx}
use chippy.Cpu.Instr.{exec, op_inc}
use chippy.Cpu.Table.{opcodes}
use chippy.Cpu.Step.{ran, run_instruction, step}
use chippy.Cpu.Cycles.Counts.{IsPerCycle, Took}
use chippy.Cpu.Cycles.Ops.{op_ticks, exec-ticks}
use chippy.Cpu.Cycles.Table.{listed_cycles}
use chippy.Cpu.Cycles.Step.{Ran, decoding, crosses, run_instruction-ran, step-Ran}
use chippy.Memory.{Ram, ram_bus}
use chippy.Memory.Calls.{SameData, op_rts-op_jsr}
use chippy.Cpu.Ops.{op_jsr, op_rts}
use chippy.Tests.{machine, ram_of}

-- INC $0605,X
abbrev inc_bytes : ℕ → ℕ
inc_bytes a = if a == 0x0600 then 0xFE else if a == 0x0601 then 5 else 6

-- The RAM with a ticker that does nothing.
abbrev ticked_bus : Bus Ram
ticked_bus = record ram_bus { bus_ticker = some λ n e. e }

abbrev nes_machine : Cpu Ram
nes_machine = machine nes true (ram_of inc_bytes)

step-Ran_example : Ran (step ticked_bus nes_machine)
step-Ran_example = step-Ran ticked_bus nes_machine (record { per_cycle = refl; is_nes = refl })

exec-ticks_example :
    Took true (op_ticks op_inc abx) nes_machine (exec ticked_bus op_inc 0x0608 abx nes_machine).1
exec-ticks_example =
    exec-ticks ticked_bus op_inc 0x0608 abx nes_machine (record { per_cycle = refl; is_nes = refl })

run_instruction-ran_example :
    let r = run_instruction ticked_bus nes_machine in
    IsPerCycle r.1
    × (r.0 ≡ ran r.1.clock.instr_cycles)
    × (r.1.clock.instr_cycles
        ≡ listed_cycles (opcodes (decoding ticked_bus nes_machine).0) (
            crosses ticked_bus
              (opcodes (decoding ticked_bus nes_machine).0)
              (decoding ticked_bus nes_machine).1)
          + r.1.clock.extra_cycles)
run_instruction-ran_example =
    run_instruction-ran ticked_bus nes_machine (record { per_cycle = refl; is_nes = refl })

-- The table lists 7 cycles for INC absolute,X.
lists_seven : (crossed : Bool) → listed_cycles (opcodes 0xFE) crossed ≡ 7
unfolding listed_cycles opcodes
lists_seven crossed = refl

abbrev nmos_machine : Cpu Ram
nmos_machine = machine nmos false (ram_of inc_bytes)

-- SP is 0, so that the second byte wraps around to 0x01FF.
abbrev wrapping_machine : Cpu Ram
wrapping_machine = record nmos_machine { regs = record (nmos_machine.regs) { sp = 0 } }

op_rts-op_jsr_example :
    let d = (op_rts ram_bus (op_jsr ram_bus 5 wrapping_machine).1).1 in
    (d.regs.pc ≡ u16 (wrapping_machine.regs.pc + 1)) × (d.regs.sp ≡ 0) × SameData wrapping_machine d
op_rts-op_jsr_example =
    op_rts-op_jsr 5 wrapping_machine (omega arith)
      (record { batch = refl; thawed = refl; sp_lt = omega arith })
