-- ===== src/Rewind/Ring.antt =====
-- The rings of cpu/snapshot_ring.go and cpu/keyframe.go, which have the same fields and the same
-- Push. `none` is the nil ring, on which every method does nothing.
pub mod Stack
pub mod Refines
pub mod Nearest
use chippy.Prelude.{
  ℕ, zero, suc, ◌+◌, ◌-◌, ◌*◌, ◌/◌, ◌%◌, Option, none, some, ltb, leb, ◌==◌, if◌then◌else◌,
}
use chippy.Rewind.{Snapshot}

pub record Ring {ℓ} (A : Type ℓ) : Type ℓ where
  pub buf : ℕ → A
  pub head : ℕ
  pub size : ℕ
  pub cap : ℕ

module _ {ℓ} {A : Type ℓ} where
  -- NewSnapshotRing; `blank` is the zero value that `make` fills the buffer with.
  unfoldable pub new_ring : A → ℕ → Option (Ring A)
  new_ring blank n =
      if n == 0 then none else some (record { buf = λ i. blank; head = 0; size = 0; cap = n })

  unfoldable pub put_slot : (ℕ → A) → ℕ → A → ℕ → A
  put_slot buf i s j = if j == i then s else buf j

  unfoldable pub push_on : A → Ring A → Ring A
  unfolding put_slot
  push_on s r = if r.cap == 0 then r else record r {
    buf = put_slot r.buf r.head s;
    head = (r.head + 1) % r.cap;
    size = if ltb r.size r.cap then r.size + 1 else r.size;
  }

  unfoldable pub push : A → Option (Ring A) → Option (Ring A)
  push s none = none
  push s (some r) = some (push_on s r)

  unfoldable pub pop_from : Ring A → Option A × Ring A
  pop_from r =
      if r.size == 0
      then (none, r)
      else (let h = (r.head + r.cap - 1) % r.cap in
          (some (r.buf h), record r { head = h; size = r.size - 1 }))

  unfoldable pub len : Option (Ring A) → ℕ
  len none = 0
  len (some r) = r.size

  unfoldable pub reset : Ring A → Ring A
  reset r = record r { head = 0; size = 0 }

pub record Keyframe : Type 0 where
  pub step : ℕ
  pub snap : Snapshot

-- NewKeyframeRing: the capacity for a budget of bytes.
unfoldable pub new_keyframe_ring : Keyframe → ℕ → Option (Ring Keyframe)
unfolding new_ring
new_keyframe_ring blank budget =
    if budget == 0
    then none
    else new_ring blank (if ltb (budget / 0x10000) 1 then 1 else budget / 0x10000)

-- The scan of Nearest from the `i`-th newest entry on, with `n` entries left.
unfoldable pub nearest_from : ℕ → Ring Keyframe → ℕ → ℕ → Option Keyframe
nearest_from target r i zero = none
nearest_from target r i (suc n) =
    let rest = nearest_from target r (i + 1) n in
    let k = r.buf ((r.head + r.cap - 1 - i) % r.cap) in if leb k.step target then some k else rest

unfoldable pub nearest : ℕ → Ring Keyframe → Option Keyframe
unfolding nearest_from
nearest target r = nearest_from target r 0 r.size

unfoldable pub oldest : Ring Keyframe → Option ℕ
oldest r = if r.size == 0 then none else some ((r.buf ((r.head + r.cap - r.size) % r.cap)).step)
