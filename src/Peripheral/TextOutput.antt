-- ===== src/Peripheral/TextOutput.antt =====
-- peripheral/textoutput.go: a port that collects the text written to it.
pub mod Bounds
use chippy.Prelude.{
  ℕ, ◌/◌, Bool, not, ◌&&◌, List, [], ◌∷◌, ◌++◌, bit_and, length, drop, ltb, ◌==◌, if◌then◌else◌,
}
use chippy.Peripheral.Acia.{make_room}

pub record TextOutput : Type 0 where
  pub addr : ℕ
  pub cap : ℕ
  pub buf : List ℕ

unfoldable pub new_text_output : ℕ → TextOutput
new_text_output addr = record { addr = addr; cap = 65536; buf = [] }

-- A carriage return is shown as a newline, in seven bits.
unfoldable pub shown : ℕ → ℕ
shown v = bit_and (if v == 0x0D then 0x0A else v) 0x7F

unfoldable pub write : ℕ → ℕ → TextOutput → TextOutput
unfolding make_room shown
write addr v t =
    if addr == t.addr then record t { buf = make_room t.cap t.buf ++ shown v ∷ [] } else t

unfoldable pub reset : TextOutput → TextOutput
reset t = record t { buf = [] }

unfoldable pub restore : List ℕ → TextOutput → TextOutput
restore state t = record t { buf = state }
