-- ===== src/Tests/Memories.antt =====
-- Freeze and Load on a small RAM.
use chippy.Prelude.{◌≡◌, none, some, [], ◌∷◌, arith}
use chippy.Memory.{Ram, freeze, read, load}
use chippy.Memory.Freeze.{write_all, freeze-holds}
use chippy.Memory.Load.{IsLoaded, load-IsLoaded, load-refuses}
use chippy.Tests.{ram_of}

abbrev zero_ram : Ram
zero_ram = ram_of λ a. 0

freeze-holds_example : read (write_all ((5, 1) ∷ (6, 2) ∷ (5, 3) ∷ []) (freeze zero_ram 5 9)) 5 ≡ 9
freeze-holds_example = freeze-holds 5 9 ((5, 1) ∷ (6, 2) ∷ (5, 3) ∷ []) zero_ram

load-IsLoaded_example :
    (r' : Ram) × (load zero_ram 0xFFFE (1 ∷ 2 ∷ []) ≡ some r')
    × IsLoaded zero_ram 0xFFFE (1 ∷ 2 ∷ []) r'
load-IsLoaded_example = load-IsLoaded (1 ∷ 2 ∷ []) zero_ram 0xFFFE (omega arith)

load-refuses_example : load zero_ram 0xFFFF (1 ∷ 2 ∷ []) ≡ none
load-refuses_example = load-refuses (1 ∷ 2 ∷ []) zero_ram 0xFFFF (omega arith) (omega arith)
