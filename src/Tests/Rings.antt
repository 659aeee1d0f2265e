-- ===== src/Tests/Rings.antt =====
-- A full ring of three entries, and a ring of keyframes.
use chippy.Prelude.{ℕ, ◌≡◌, refl, none, some, [], ◌∷◌, ◌+◌, false, ◌==◌, if◌then◌else◌, arith}
use chippy.Rewind.{Snapshot}
use chippy.Rewind.Ring.{Ring, Keyframe, push_on, pop_from, nearest}
use chippy.Rewind.Ring.Stack.{IsRing, contents, take}
use chippy.Rewind.Ring.Refines.{first, rest, push_on-contents, pop_from-contents}
use chippy.Rewind.Ring.Nearest.{IsAscending, IsLatest, nearest-IsLatest}
use chippy.Tests.{start_regs}

-- The entries 12, 11, 10 from the newest on.
abbrev full_ring : Ring ℕ
full_ring = record { buf = λ i. if i == 0 then 12 else 9 + i; head = 1; size = 3; cap = 3 }

full_ring-IsRing : IsRing full_ring
full_ring-IsRing = record { room = omega arith; head_lt = omega arith; size_le = omega arith }

push_on-contents_example :
    IsRing (push_on 13 full_ring)
    × (contents (push_on 13 full_ring) ≡ take 3 (13 ∷ contents full_ring))
push_on-contents_example = push_on-contents 13 full_ring full_ring-IsRing

pop_from-contents_example :
    let p = pop_from full_ring in
    IsRing p.1 × (p.0 ≡ first (contents full_ring)) × (contents p.1 ≡ rest (contents full_ring))
pop_from-contents_example = pop_from-contents full_ring full_ring-IsRing

forgets_the_oldest : contents (push_on 13 full_ring) ≡ 13 ∷ 12 ∷ 11 ∷ []
unfolding push_on contents
forgets_the_oldest = refl

abbrev snap : Snapshot
snap = record {
  regs = start_regs;
  cycles = 0;
  halted = false;
  extra_cycles = 0;
  irq_line = false;
  nmi_pending = false;
  pages = none;
}

-- Keyframes of the steps 300 and 200.
abbrev keyframes : Ring Keyframe
keyframes = record {
  buf = λ i. record { step = if i == 0 then 200 else 300; snap = snap };
  head = 2;
  size = 2;
  cap = 4;
}

keyframes-IsAscending : IsAscending keyframes
keyframes-IsAscending = record { older = λ i j le lt. ground arith }

nearest-IsLatest_example : IsLatest 250 keyframes 0 2 (nearest 250 keyframes)
nearest-IsLatest_example = nearest-IsLatest 250 keyframes keyframes-IsAscending

nearest_finds : nearest 250 keyframes ≡ some (record { step = 200; snap = snap })
unfolding nearest
nearest_finds = refl
