-- ===== src/Cpu/Addressing/Pages.antt =====
-- When an indexed access crosses a page, and the pointer wrap of the NMOS part.
use chippy.Prelude.{
  ℕ, Bool, ◌+◌, ◌-◌, ◌*◌, ◌/◌, ◌%◌, ◌<◌, ◌≡◌, refl, true, ap, ◌∙◌, bit_and, bit_or, u8, u16, leb,
  ◌==◌, ==_iff, each_below, each_below_at, if◌then◌else◌, arith,
}
use chippy.Cpu.Addressing.{page_differs, same_page_next}

mask_row : ℕ → ℕ → Bool
mask_row hi lo = bit_and (hi * 256 + lo) 0xFF00 == hi * 256

mask_table : each_below 256 (λ hi. each_below 256 (mask_row hi)) ≡ true
unfolding each_below mask_row
mask_table = refl

page_base : (v : ℕ) → v < 65536 → bit_and v 0xFF00 ≡ v / 256 * 256
unfolding mask_row
page_base v lt =
    ap (λ u. bit_and u 0xFF00) (omega arith)
    ∙ (==_iff _ _).0 (
        each_below_at 256 (mask_row (v / 256)) (v % 256)
          (each_below_at 256 (λ hi. each_below 256 (mask_row hi)) (v / 256) mask_table
            (omega arith))
          (omega arith))

-- The crossing that resolve reports for a base and an index byte is the carry out of the low
-- byte, also where the sum wraps around at 0x10000.
pub page_differs-carry :
    (base index : ℕ)
    → base < 65536
    → index < 256
    → page_differs base (u16 (base + index)) ≡ leb 256 (base % 256 + index)
unfolding page_differs
page_differs-carry base index lb li =
    let b = page_base base lb in
    let s = page_base (u16 (base + index)) (omega arith) in ground (arith, b, s)

join_row : ℕ → ℕ → Bool
join_row hi lo = bit_or (hi * 256) lo == hi * 256 + lo

join_table : each_below 256 (λ hi. each_below 256 (join_row hi)) ≡ true
unfolding each_below join_row
join_table = refl

pub join : (hi lo : ℕ) → hi < 256 → lo < 256 → bit_or (hi * 256) lo ≡ hi * 256 + lo
unfolding join_row
join hi lo lh ll = (==_iff _ _).0 (
    each_below_at 256 (join_row hi) lo
      (each_below_at 256 (λ hi. each_below 256 (join_row hi)) hi join_table lh) ll)

-- The address of a pointer's high byte on the NMOS part is the next address, but on the last
-- byte of a page it is the first byte of that page.
pub same_page_next-wraps :
    (ptr : ℕ) → ptr < 65536 → same_page_next ptr ≡ (if ptr % 256 == 255 then ptr - 255 else ptr + 1)
unfolding same_page_next
same_page_next-wraps ptr lt =
    let e : bit_or (bit_and ptr 0xFF00) (u8 (u8 ptr + 1)) ≡ ptr / 256 * 256 + u8 (u8 ptr + 1) =
      ap (λ b. bit_or b (u8 (u8 ptr + 1))) (page_base ptr lt)
      ∙ join (ptr / 256) (u8 (u8 ptr + 1)) (omega arith) (omega arith) in
    ground (arith, e)
