-- ===== src/Tests/Rewinding.antt =====
-- Reverse steps of small programs in RAM.
use chippy.Prelude.{word, ℕ, ◌≡◌, refl, false, ◌==◌, if◌then◌else◌}
use chippy.Cpu.State.{
  Cpu, cmos65c02, ◌>>=◌, maybe, pure, gets, regs, variant, on_regs, on_env, on_lines, on_latches,
  set_halted, set_stopped_by_stp, add_cycles, instr_cycle, extra_cycle,
}
use chippy.Cpu.Step.{
  ran, step, wake_on_masked_irq, nmi_take, irq_take, dispatch, run_instruction, set_instr_zero,
  set_extra_zero, before_exec, total_cycles, retire,
}
use chippy.Memory.{Ram, no_pages, ram_bus, reset_shadow, take_shadow}
use chippy.Rewind.{restore, step_with_snapshot, repeat, snapshot}
use chippy.Rewind.Laws.{IsBackAt, step_back}
use chippy.Rewind.Stuck.{step_back-stuck}
use chippy.Cpu.Access.Dma.{ask_byte, hook, tick, raw_read, raw_write}
use chippy.Cpu.Access.{bus_read, read, fetch, write, idle}
use chippy.Cpu.Addressing.{bump_pc, operand_word, resolve}
use chippy.Cpu.Ops.{op_store, op_stp}
use chippy.Cpu.Instr.{exec}
use chippy.Cpu.Table.{table}
use chippy.Tests.{machine, ram_of}

-- STA 0x0602; STP
abbrev store_bytes : ℕ → ℕ
store_bytes a =
    if a == 0x0600 then 0x8D else if a == 0x0602 then 0x06 else if a == 0x0603 then 0xDB else 2

abbrev store_machine : Cpu Ram
store_machine = machine cmos65c02 false (ram_of store_bytes)

store_moves : (step_with_snapshot (repeat 1 (step ram_bus)) store_machine).1.regs.pc ≡ 0x0603
unfolding ◌>>=◌ maybe pure gets regs variant on_regs on_env on_lines on_latches set_halted
    set_stopped_by_stp add_cycles instr_cycle extra_cycle ask_byte hook tick raw_read raw_write
    bus_read read fetch write idle bump_pc operand_word resolve op_store op_stp exec table
    wake_on_masked_irq nmi_take irq_take dispatch run_instruction set_instr_zero set_extra_zero
    before_exec total_cycles retire step ram_bus reset_shadow take_shadow snapshot
    step_with_snapshot repeat
store_moves = refl

step_back_example :
    let r = step_with_snapshot (repeat 1 (step ram_bus)) store_machine in
    IsBackAt store_machine (restore r.0 r.1)
step_back_example = step_back 1 store_machine no_pages refl

step_back-stuck_example :
    let r = step_with_snapshot (repeat 2 (step ram_bus)) store_machine in
    step ram_bus (restore r.0 r.1) ≡ (ran 0, restore r.0 r.1)
unfolding ◌>>=◌ maybe pure gets regs variant on_regs on_env on_lines on_latches set_halted
    set_stopped_by_stp add_cycles instr_cycle extra_cycle ask_byte hook tick raw_read raw_write
    bus_read read fetch write idle bump_pc operand_word resolve op_store op_stp exec table
    wake_on_masked_irq nmi_take irq_take dispatch run_instruction set_instr_zero set_extra_zero
    before_exec total_cycles retire step ram_bus reset_shadow take_shadow snapshot
    step_with_snapshot repeat word
step_back-stuck_example = step_back-stuck 2 store_machine refl
