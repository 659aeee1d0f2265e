-- ===== src/Tests/Debugger.antt =====
-- Expressions, program files, save states and stack frames.
use chippy.Prelude.{
  ℕ, zero, suc, ◌+◌, ◌<◌, ◌≤◌, ◌≡◌, ◌≢◌, ◌⊎◌, refl, Bool, true, false, none, some, List, [], ◌∷◌,
  u8, hi_byte, ◌==◌, if◌then◌else◌, arith,
}
use chippy.Cpu.State.{Cpu, nes, nmos}
use chippy.Cpu.Access.{push16}
use chippy.Cpu.FullState.{save_full_state, load_full_state}
use chippy.Cpu.FullState.Restored.{IsRestored, load-save}
use chippy.Expr.Result.{ok, no_fuel}
use chippy.Expr.Value.{EvalFn, register, number, ident_eval, builtin, bytes_eq, to_upper}
use chippy.Expr.Parse.{Resolver, parse_all}
use chippy.Expr.Parse.RoundTrip.{parse_all-print}
use chippy.Expr.Syntax.{
  Syntax, num, name, binary, plus_op, times_op, print, apply, means_num, means_name, means_binary,
}
use chippy.Expr.Lex.{compile}
use chippy.Expr.Lex.Total.{compile-returns}
use chippy.Loader.Hex.{
  HexState, crashed, hex_record, hex_start, refused, prg_format, load_hex, loaded, hex_format,
}
use chippy.Loader.Record.{data_record, hex_record-crashes}
use chippy.Loader.Text.{no_bytes, a_byte, hex_line, eof_line, load_hex-text}
use chippy.Loader.{load_prg}
use chippy.Loader.Images.{IsPlaced, load_prg-places}
use chippy.Memory.{Ram, ram_bus}
use chippy.Memory.Load.{IsLoaded}
use chippy.Memory.Stack.{IsPlain}
use chippy.Memory.Frame.{HasCall, detect_stack_frame, detect_stack_frame-push16}
use chippy.Tests.{machine, ram_of}

abbrev registers_only : Resolver Ram
registers_only = ident_eval (λ s. none) (λ s. none)

-- (1 + 2) * A
abbrev product : Syntax
product = binary times_op (binary plus_op (num 1) (num 2)) (name (65 ∷ []))

abbrev product_value : EvalFn Ram
product_value = apply times_op (apply plus_op (number 1) (number 2)) (register λ r. r.a)

a_known : registers_only (65 ∷ []) ≡ some (register λ r. r.a)
unfolding ident_eval builtin bytes_eq to_upper
a_known = refl

parse_all-print_example : parse_all registers_only (print product []) ≡ ok product_value
parse_all-print_example = parse_all-print registers_only product product_value (
    means_binary times_op (means_binary plus_op (means_num 1) (means_num 2))
      (means_name (65 ∷ []) a_known))

compile-returns_example : compile registers_only (36 ∷ 49 ∷ 43 ∷ []) ≢ no_fuel
compile-returns_example = compile-returns registers_only (36 ∷ 49 ∷ 43 ∷ [])

abbrev ram : Ram
ram = ram_of λ a. 0

abbrev start : HexState Bool
start = hex_start (ram, true)

load_hex-text_example :
    (r : Ram) × (load_hex none
        (ram, true)
        (some (hex_line (data_record 0x0600 (1 ∷ 2 ∷ [])) ∷ eof_line ∷ [], false))
      ≡ loaded (r, true) (record { load_addr = 0x0600; bank = 0; size = 2; format = hex_format }))
    × IsLoaded ram 0x0600 (1 ∷ 2 ∷ []) r
load_hex-text_example =
    load_hex-text none (ram, true) 0x0600 (1 ∷ 2 ∷ [])
      (a_byte (omega arith) (a_byte (omega arith) no_bytes)) (omega arith) (omega arith)
      (omega arith)

-- 253 bytes: more than the loader's slice can hold.
abbrev zeros : ℕ → List ℕ
zeros zero = []
zeros (suc n) = 0 ∷ zeros n

hex_record-crashes_example : hex_record none start (data_record 0x0600 (zeros 253)) ≡ crashed
hex_record-crashes_example =
    hex_record-crashes none start 0x0600 (zeros 253) (omega arith) (omega arith) (omega arith)

load_prg-places_example :
    ((0x0801 + 2 ≤ 0x10000)
      × IsPlaced
          (ram, true)
          0x0801
          (1 ∷ 2 ∷ [])
          prg_format
          (load_prg (ram, true) (some (u8 0x0801 ∷ hi_byte 0x0801 ∷ 1 ∷ 2 ∷ []))))
    ⊎ ((0x10000 < 0x0801 + 2)
        × (load_prg (ram, true) (some (u8 0x0801 ∷ hi_byte 0x0801 ∷ 1 ∷ 2 ∷ []))
            ≡ refused (ram, true)))
load_prg-places_example = load_prg-places (ram, true) 0x0801 (1 ∷ 2 ∷ []) (omega arith)

abbrev saved_machine : Cpu Ram
saved_machine = machine nes true ram

abbrev other_machine : Cpu Ram
other_machine = machine nmos false ram

load-save_example :
    IsRestored saved_machine other_machine
      (load_full_state (save_full_state saved_machine) other_machine)
load-save_example = load-save saved_machine other_machine

-- JSR $0700 at 0x0600
abbrev call_bytes : ℕ → ℕ
call_bytes a = if a == 0x0600 then 0x20 else if a == 0x0602 then 7 else 0

abbrev caller : Cpu Ram
caller = machine nmos false (record { bytes = call_bytes; shadow = none; frozen = [] })

caller-IsPlain : IsPlain caller
caller-IsPlain = record { batch = refl; thawed = refl; sp_lt = omega arith }

call_bytes-HasCall : HasCall call_bytes 0x0602 0x0700
call_bytes-HasCall = record {
  opcode = refl;
  low = refl;
  high = refl;
  stored_ge = omega arith;
  stored_lt = omega arith;
  target_ge = omega arith;
  target_lt = omega arith;
}

detect_stack_frame-push16_example :
    detect_stack_frame (push16 ram_bus 0x0602 caller).1.env.world (255 + 0xFD)
    ≡ some (0x0603, 0x0700)
detect_stack_frame-push16_example =
    detect_stack_frame-push16 0x0602 0x0700 caller caller-IsPlain (omega arith) call_bytes-HasCall
