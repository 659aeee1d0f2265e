-- ===== src/Memory/Saved.antt =====
-- The RAM's part of a save state (SaveFullState and LoadFullState of cpu/memory.go).
use chippy.Prelude.{
  ℕ, zero, suc, ◌+◌, ◌<◌, ◌≡◌, refl, ap, ◌∙◌, Option, none, some, List, [], ◌∷◌, length, ◌==◌,
  if◌then◌else◌, arith, if-elim,
}
use chippy.Memory.{Ram, reset_shadow}

unfoldable pub bytes_from : (ℕ → ℕ) → ℕ → ℕ → List ℕ
bytes_from bytes at zero = []
bytes_from bytes at (suc n) = bytes at ∷ bytes_from bytes (at + 1) n

unfoldable pub save_full_state : Ram → List ℕ
unfolding bytes_from
save_full_state r = bytes_from r.bytes 0 0x10000

unfoldable pub byte_at : List ℕ → ℕ → ℕ
byte_at [] a = 0
byte_at (b ∷ s) zero = b
byte_at (b ∷ s) (suc a) = byte_at s a

-- `none` is the error of a payload of another size.
unfoldable pub load_full_state : List ℕ → Ram → Option Ram
unfolding byte_at reset_shadow
load_full_state s r =
    if length s == 0x10000 then some (reset_shadow (record r { bytes = byte_at s })) else none

length-bytes_from : (bytes : ℕ → ℕ) (n at : ℕ) → length (bytes_from bytes at n) ≡ n
unfolding bytes_from
length-bytes_from bytes zero at = refl
length-bytes_from bytes (suc n) at = ap suc (length-bytes_from bytes n (at + 1))

byte_at-bytes_from :
    (bytes : ℕ → ℕ) (n at a : ℕ) → a < n → byte_at (bytes_from bytes at n) a ≡ bytes (at + a)
unfolding bytes_from byte_at
byte_at-bytes_from bytes zero at a lt = absurd (omega (arith, lt))
byte_at-bytes_from bytes (suc n) at zero lt = ap bytes (omega arith)
byte_at-bytes_from bytes (suc n) at (suc a) lt =
    byte_at-bytes_from bytes n (at + 1) a (omega (arith, lt)) ∙ ap bytes (omega arith)

right_size :
    (l : List ℕ) (s : Ram)
    → length l ≡ 0x10000
    → load_full_state l s ≡ some (reset_shadow (record s { bytes = byte_at l }))
unfolding load_full_state
right_size l s h =
    if-elim (λ o. o ≡ some (reset_shadow (record s { bytes = byte_at l }))) (length l == 0x10000) _
      _ (λ e. refl) (λ e. absurd (ground (arith, e, h)))

-- A RAM's saved bytes are accepted by any RAM, which then holds them at every address, keeps its freeze
-- set, and starts a new shadow epoch.
pub load_full_state-save_full_state :
    (r s : Ram)
    → (t : Ram) × (load_full_state (save_full_state r) s ≡ some t)
      × ((a : ℕ) → a < 0x10000 → t.bytes a ≡ r.bytes a)
      × (t.frozen ≡ s.frozen)
      × (t.shadow ≡ (reset_shadow s).shadow)
unfolding save_full_state reset_shadow
load_full_state-save_full_state r s =
    let saved : List ℕ = bytes_from r.bytes 0 0x10000 in
    (
      reset_shadow (record s { bytes = byte_at saved }),
      right_size saved s (length-bytes_from r.bytes 0x10000 0),
      λ a lt. byte_at-bytes_from r.bytes 0x10000 0 a lt ∙ ap r.bytes (omega arith),
      refl,
      refl,
    )
