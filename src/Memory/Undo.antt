-- ===== src/Memory/Undo.antt =====
-- The page shadow undoes every write of its epoch.
use chippy.Prelude.{ℕ, ◌<◌, ◌≡◌, refl, ap, ◌∙◌, if-elim, none, some, List, hi_byte, u8, arith}
use chippy.Memory.{
  Ram, Pages, no_pages, page_image, put_byte, shadow_page, shadow_write, write, contains,
  reset_shadow,
}

-- The byte at `a` when each page of `pages` is copied back.
unfoldable pub restored : Pages → (ℕ → ℕ) → ℕ → ℕ
restored pages bytes a = elim (pages (hi_byte a)) [ none ↦ bytes a | some img ↦ img (u8 a) ]

-- The pages held bring back `orig`.
pub record IsUndoable (orig : ℕ → ℕ) (frozen : List ℕ) (r : Ram) : Type 0 where
  pub pages : Pages
  pub shadowed : r.shadow ≡ some pages
  pub undoes : (a : ℕ) → a < 65536 → restored pages r.bytes a ≡ orig a
  pub held : r.frozen ≡ frozen

restored-put_byte :
    (pages : Pages) (bytes : ℕ → ℕ) (addr v a : ℕ)
    → addr < 65536
    → a < 65536
    → restored (shadow_page bytes (hi_byte addr) pages) (put_byte bytes addr v) a
      ≡ restored pages bytes a
unfolding restored shadow_page put_byte page_image
restored-put_byte pages bytes addr v a p q = ground arith

module _ (orig : ℕ → ℕ) (frozen : List ℕ) where
  -- Every write of an epoch, to a frozen address or not, can still be undone.
  pub write-IsUndoable :
      (r : Ram) (addr v : ℕ)
      → addr < 65536
      → IsUndoable orig frozen r
      → IsUndoable orig frozen (write r addr v)
  unfolding write
  write-IsUndoable r addr v lt h =
      if-elim (IsUndoable orig frozen) (contains r.frozen addr) _ _ (λ _. h)
        λ _. record {
          pages = shadow_page r.bytes (hi_byte addr) h.pages;
          shadowed = unfold shadow_write in ap (shadow_write r.bytes (hi_byte addr)) h.shadowed;
          undoes = λ a p. restored-put_byte h.pages r.bytes addr v a lt p ∙ h.undoes a p;
          held = h.held;
        }

-- A fresh epoch undoes nothing.
pub reset_shadow-IsUndoable :
    (r : Ram) (pages : Pages) → r.shadow ≡ some pages → IsUndoable r.bytes r.frozen (reset_shadow r)
unfolding reset_shadow restored
reset_shadow-IsUndoable r pages on = record {
  pages = no_pages;
  shadowed = ground (arith, on);
  undoes = λ a p. refl;
  held = refl;
}
