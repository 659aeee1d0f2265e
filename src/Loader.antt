-- ===== src/Loader.antt =====
-- loader/loader.go: the formats a program is loaded from. A file is what reading it returns, `none`
-- for an error; `B` is what lies behind the 65816's bus, and the linker is a parameter.
pub mod Hex
pub mod Images
pub mod Record
pub mod Text
use text.Mathlib.Text.{◌==◌ as str_eq}
use chippy.Prelude.{
  ℕ, ◌+◌, Bool, true, false, Option, none, some, List, [], ◌∷◌, String, length, ltb, word,
  if◌then◌else◌,
}
use chippy.Memory.{Ram, load}
use chippy.Loader.Hex.{
  Format, bin_format, prg_format, linked_format, LoadResult, Memories, Write24, Loaded, loaded,
  refused, panicked, load_hex,
}

module _ {B : Type 0} where
  abbrev pub placed : Memories B → LoadResult → Option Ram → Loaded B
  placed m r none = panicked
  placed m r (some ram) = loaded (ram, m.1) r

  unfoldable pub load_at : Memories B → ℕ → List ℕ → Format → Loaded B
  load_at m addr image format =
      let done =
        placed m (record { load_addr = addr; bank = 0; size = length image; format = format })
          (load m.0 addr image) in
      if ltb 0x10000 (addr + length image) then refused m else done

  unfoldable pub load_bin : Memories B → ℕ → Option (List ℕ) → Loaded B
  unfolding load_at
  load_bin m addr none = refused m
  load_bin m addr (some image) = load_at m addr image bin_format

  unfoldable pub load_prg : Memories B → Option (List ℕ) → Loaded B
  unfolding load_at
  load_prg m none = refused m
  load_prg m (some (lo ∷ hi ∷ body)) = load_at m (word lo hi) body prg_format
  load_prg m (some short) = refused m

  -- `linked` is the image that ld65 leaves, none when there is no configuration, no linker, or an
  -- error of its own; its size is bounded by the same check as a .bin file's.
  unfoldable pub load_object : Memories B → ℕ → Option (List ℕ) → Loaded B
  unfolding load_at
  load_object m addr none = refused m
  load_object m addr (some image) = load_at m addr image linked_format

  -- The switch on the lower-case extension. A file is `image`, or `lines` when read by lines.
  unfoldable pub load_file :
      Option (Write24 B)
      → String
      → Memories B
      → ℕ
      → Option (List ℕ)
      → Option (List (List ℕ) × Bool)
      → Option (List ℕ)
      → Loaded B
  unfolding load_bin load_prg load_object load_hex
  load_file bus24 ext m addr image lines linked =
      if str_eq ext ".prg"
      then load_prg m image
      else if str_eq ext ".hex"
      then load_hex bus24 m lines
      else if str_eq ext ".o"
      then load_object m addr linked
      else load_bin m addr image
