-- ===== src/Memory/Freeze.antt =====
-- A frozen address holds its value against every write.
use chippy.Prelude.{
  ℕ, ◌≡◌, ap, ◌∙◌, true, List, [], ◌∷◌, ◌==◌, ==_iff, if◌then◌else◌, if-elim, Bool-cases, inl, inr,
  arith,
}
use chippy.Memory.{Ram, contains, put_byte, write, read, freeze}

-- A program's writes, the first in front.
unfoldable pub write_all : List (ℕ × ℕ) → Ram → Ram
write_all [] r = r
write_all ((addr, v) ∷ l) r = write_all l (write r addr v)

record IsHeld (a v : ℕ) (r : Ram) : Type 0 where
  frozen : contains r.frozen a ≡ true
  held : r.bytes a ≡ v

write-IsHeld : (a v : ℕ) (r : Ram) (addr w : ℕ) → IsHeld a v r → IsHeld a v (write r addr w)
unfolding write
write-IsHeld a v r addr w h =
    if-elim (IsHeld a v) (contains r.frozen addr) _ _ (λ _. h)
      λ free. record {
        frozen = h.frozen;
        held = elim (Bool-cases (a == addr)) [
          | inl same ↦
              absurd
                (ground (arith, free, h.frozen, ap (contains r.frozen) ((==_iff a addr).0 same)))
          | inr other ↦ unfold put_byte in ap (λ b. if b then w else r.bytes a) other ∙ h.held
        ];
      }

write_all-IsHeld :
    (a v : ℕ) (l : List (ℕ × ℕ)) (r : Ram) → IsHeld a v r → IsHeld a v (write_all l r)
unfolding write_all
write_all-IsHeld a v [] r h = h
write_all-IsHeld a v ((addr, w) ∷ l) r h =
    write_all-IsHeld a v l (write r addr w) (write-IsHeld a v r addr w h)

-- After Freeze of an address, whatever the program writes and to whatever addresses, reading the
-- address gives the value that Freeze set.
pub freeze-holds : (a v : ℕ) (l : List (ℕ × ℕ)) (r : Ram) → read (write_all l (freeze r a v)) a ≡ v
unfolding read freeze
freeze-holds a v l r =
    (write_all-IsHeld a v l (freeze r a v) (record {
      frozen =
          if-elim (λ f. contains f a ≡ true) (contains r.frozen a) _ _ (λ here. here)
            (λ _. unfold contains in ground arith);
      held = unfold put_byte in ground arith;
    })).held
