-- ===== src/Memory.antt =====
-- cpu/memory.go: the 64 KiB RAM, its page shadow and its freeze set.
-- A map from pages to images is a function into Option; an image is a function from offsets.

pub mod Undo
pub mod Stack
pub mod Calls
pub mod Saved
pub mod Frame
pub mod Freeze
pub mod Load
use chippy.Prelude.{
  ℕ, ◌+◌, ◌*◌, ◌/◌, ◌%◌, ◌<◌, Bool, true, false, ◌||◌, Option, none, some, List, [], ◌∷◌, u8, u16,
  hi_byte, ltb, ◌==◌, if◌then◌else◌,
}
use chippy.Cpu.State.{Bus, Env}

abbrev pub Image : Type 0
Image = ℕ → ℕ

abbrev pub Pages : Type 0
Pages = ℕ → Option Image

pub record Ram : Type 0 where
  pub bytes : ℕ → ℕ
  -- `none` is nil: shadow tracking disabled
  pub shadow : Option Pages
  pub frozen : List ℕ

abbrev pub no_pages : Pages
no_pages p = none

unfoldable pub contains : List ℕ → ℕ → Bool
contains [] a = false
contains (b ∷ l) a = b == a || contains l a

unfoldable pub remove : List ℕ → ℕ → List ℕ
remove [] a = []
remove (b ∷ l) a = let rest = remove l a in if b == a then rest else b ∷ rest

unfoldable pub put_byte : (ℕ → ℕ) → ℕ → ℕ → ℕ → ℕ
put_byte bytes addr v a = if a == addr then v else bytes a

-- The image of a page, `copy(img[:], r.Data[base:base+256])`.
unfoldable pub page_image : (ℕ → ℕ) → ℕ → Image
page_image bytes page i = bytes (page * 256 + i)

-- The first write to a page in an epoch keeps its image.
unfoldable pub shadow_page : (ℕ → ℕ) → ℕ → Pages → Pages
unfolding page_image
shadow_page bytes page pages q = elim (pages page) [
  | none ↦ if q == page then some (page_image bytes page) else pages q
  | some img ↦ pages q
]

unfoldable pub shadow_write : (ℕ → ℕ) → ℕ → Option Pages → Option Pages
unfolding shadow_page
shadow_write bytes page none = none
shadow_write bytes page (some pages) = some (shadow_page bytes page pages)

unfoldable pub write : Ram → ℕ → ℕ → Ram
unfolding contains shadow_write put_byte
write r addr v = if contains r.frozen addr then r else record r {
  bytes = put_byte r.bytes addr v;
  shadow = shadow_write r.bytes (hi_byte addr) r.shadow;
}

unfoldable pub read : Ram → ℕ → ℕ
read r addr = r.bytes addr

-- `Load`; `none` is the panic of an index out of range.
unfoldable pub load : Ram → ℕ → List ℕ → Option Ram
unfolding put_byte
load r addr [] = some r
load r addr (b ∷ l) =
    let rest = load (record r { bytes = put_byte r.bytes addr b }) (addr + 1) l in
    if ltb addr 0x10000 then rest else none

unfoldable pub freeze : Ram → ℕ → ℕ → Ram
unfolding put_byte contains
freeze r addr v = record r {
  bytes = put_byte r.bytes addr v;
  frozen = if contains r.frozen addr then r.frozen else addr ∷ r.frozen;
}

unfoldable pub unfreeze : Ram → ℕ → Ram
unfolding remove
unfreeze r addr = record r { frozen = remove r.frozen addr }

unfoldable pub is_frozen : Ram → ℕ → Bool
unfolding contains
is_frozen r addr = contains r.frozen addr

unfoldable pub enable_shadow : Ram → Ram
enable_shadow r = elim r.shadow [ none ↦ record r { shadow = some no_pages } | some p ↦ r ]

abbrev fresh : Option Pages → Option Pages
fresh none = none
fresh (some p) = some no_pages

unfoldable pub reset_shadow : Ram → Ram
reset_shadow r = record r { shadow = fresh r.shadow }

-- The pages of the epoch, and the RAM with a fresh one.
unfoldable pub take_shadow : Ram → Option Pages × Ram
take_shadow r = (r.shadow, record r { shadow = fresh r.shadow })

-- A bus that is this RAM and nothing else; Go's `uint16` wraps the address.
unfoldable pub ram_bus : Bus Ram
unfolding read write
ram_bus = record {
  read = λ addr e. (read e.world (u16 addr), e);
  write = λ addr v e. record e { world = write e.world (u16 addr) v };
  bus_ticker = none;
  dma_bus = none;
  access_hook = none;
  ppu_runner = none;
  dmc_fetcher = none;
}
