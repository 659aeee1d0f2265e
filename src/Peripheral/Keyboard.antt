-- ===== src/Peripheral/Keyboard.antt =====
-- peripheral/keyboard.go: the Apple-1 style keyboard port.
use chippy.Prelude.{ℕ, Bool, true, false, List, [], ◌∷◌, bit_or, nonzero, leb, ◌==◌, if◌then◌else◌}

pub record Keyboard : Type 0 where
  pub data_addr : ℕ
  pub status_addr : ℕ
  pub byte : ℕ
  pub ready : Bool

unfoldable pub new_keyboard : ℕ → ℕ → Keyboard
new_keyboard data_addr status_addr = record {
  data_addr = data_addr;
  status_addr = status_addr;
  byte = 0;
  ready = false;
}

unfoldable pub range : Keyboard → ℕ × ℕ
range k =
    if leb k.data_addr k.status_addr
    then (k.data_addr, k.status_addr)
    else (k.status_addr, k.data_addr)

unfoldable pub push : ℕ → Keyboard → Keyboard
push b k = record k { byte = b; ready = true }

unfoldable pub read : ℕ → Keyboard → ℕ × Keyboard
read addr k =
    if addr == k.data_addr
    then (bit_or k.byte 0x80, record k { ready = false })
    else if addr == k.status_addr
    then (if k.ready then 0x80 else 0, k)
    else (0, k)

unfoldable pub snapshot : Keyboard → List ℕ
snapshot k = k.byte ∷ (if k.ready then 1 else 0) ∷ []

unfoldable pub restore : List ℕ → Keyboard → Keyboard
restore (b ∷ r ∷ rest) k = record k { byte = b; ready = nonzero r }
restore short k = record k { byte = 0; ready = false }
