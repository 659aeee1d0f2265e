-- ===== src/Loader/Images.antt =====
-- Raw and PRG images: placed where they say when they fit, refused when they do not.
use chippy.Prelude.{
  ℕ, ◌+◌, ◌<◌, ◌≤◌, ◌≡◌, ap, ◌∙◌, some, List, ◌∷◌, length, ltb, u8, hi_byte, word, sym, subst,
  Bool-cases, inl, inr, arith, ◌⊎◌,
}
use chippy.Memory.{Ram}
use chippy.Memory.Stack.{word-bytes}
use chippy.Memory.Load.{IsLoaded, load-IsLoaded}
use chippy.Loader.Hex.{Format, prg_format, Memories, Loaded, loaded, refused}
use chippy.Loader.{load_at, load_prg}

-- The image stands in RAM at its address, and the load says so.
pub record IsPlaced {B : Type 0} (m : Memories B) (addr : ℕ) (image : List ℕ) (format : Format)
    (r : Loaded B) : Type 0 where
  pub ram : Ram
  pub overlaid : IsLoaded m.0 addr image ram
  pub result :
      r
      ≡ loaded
          (ram, m.1)
          (record { load_addr = addr; bank = 0; size = length image; format = format })

module _ {B : Type 0} (m : Memories B) (addr : ℕ) (image : List ℕ) (format : Format) where
  load_at-places :
      addr + length image ≤ 0x10000 → IsPlaced m addr image format (load_at m addr image format)
  unfolding load_at
  load_at-places fits =
      let (ram, e, h) = load-IsLoaded image m.0 addr fits in
      record { ram = ram; overlaid = h; result = ground (arith, fits, e) }

  load_at-refuses : 0x10000 < addr + length image → load_at m addr image format ≡ refused m
  unfolding load_at
  load_at-refuses over = ground (arith, over)

-- A PRG file, whose first two bytes are the address, low byte first: an image that ends at 0x10000 or
-- below is placed at the address, and a longer one is refused, with nothing loaded.
pub load_prg-places :
    {B : Type 0} (m : Memories B) (addr : ℕ) (image : List ℕ)
    → addr < 0x10000
    → ((addr + length image ≤ 0x10000)
        × IsPlaced m addr image prg_format (load_prg m (some (u8 addr ∷ hi_byte addr ∷ image))))
      ⊎ ((0x10000 < addr + length image)
          × (load_prg m (some (u8 addr ∷ hi_byte addr ∷ image)) ≡ refused m))
unfolding load_prg
load_prg-places m addr image lt =
    let at : word (u8 addr) (hi_byte addr) ≡ addr = word-bytes addr lt in
    elim (Bool-cases (ltb 0x10000 (addr + length image))) [
      | inl over ↦ inr (
        ground (arith, over),
        ap (λ a. load_at m a image prg_format) at
            ∙ load_at-refuses m addr image prg_format (ground (arith, over)),
      )
      | inr fits ↦ inl (
        ground (arith, fits),
        subst (λ a. IsPlaced m addr image prg_format (load_at m a image prg_format)) (sym at)
            (load_at-places m addr image prg_format (ground (arith, fits))),
      )
    ]
