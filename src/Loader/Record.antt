-- ===== src/Loader/Record.antt =====
-- What loadHEX does with a well-formed data record.
use chippy.Prelude.{
  ℕ, ◌+◌, ◌-◌, ◌*◌, ◌<◌, ◌≤◌, ◌≡◌, refl, sym, ap, ◌∙◌, Option, none, some, List, [], ◌∷◌, ◌++◌, u8,
  hi_byte, bit_or, length, take, length-append, take-append_length, arith,
}
use chippy.Cpu.Addressing.Pages.{join}
use chippy.Memory.{Ram}
use chippy.Memory.Load.{IsLoaded, load-IsLoaded}
use chippy.Expr.Value.{u32}
use chippy.Loader.Hex.{
  HexState, HexStep, next, crashed, Write24, sum8, all_but_last, last, data_slice, noted, hex_data,
  hex_record,
}

all_but_last-append : (b c : ℕ) (l : List ℕ) → all_but_last b (l ++ c ∷ []) ≡ b ∷ l
unfolding all_but_last
all_but_last-append b c [] = refl
all_but_last-append b c (d ∷ l) = ap (λ k. b ∷ k) (all_but_last-append d c l)

last-append : (b c : ℕ) (l : List ℕ) → last b (l ++ c ∷ []) ≡ c
unfolding last
last-append b c [] = refl
last-append b c (d ∷ l) = last-append d c l

-- The format's checksum: the bytes of a record sum to 0.
unfoldable pub with_checksum : ℕ → List ℕ → List ℕ
with_checksum b l = b ∷ (l ++ u8 (256 - sum8 0 (b ∷ l)) ∷ [])

unfoldable pub data_record : ℕ → List ℕ → List ℕ
unfolding with_checksum
data_record addr bytes = with_checksum (length bytes) (hi_byte addr ∷ u8 addr ∷ 0 ∷ bytes)

module _ {B : Type 0} (bus24 : Option (Write24 B)) (s : HexState B) where
  passed :
      (count hi lo b : ℕ) (more : List ℕ)
      → count + 5 ≡ 5 + length more
      → u8 (256 - sum8 0 (all_but_last count (hi ∷ lo ∷ 0 ∷ b ∷ more)))
        ≡ last count (hi ∷ lo ∷ 0 ∷ b ∷ more)
      → hex_record bus24 s (count ∷ hi ∷ lo ∷ 0 ∷ b ∷ more)
        ≡ hex_data bus24 (bit_or (hi * 256) lo) s (data_slice count (b ∷ more))
  unfolding hex_record
  passed count hi lo b more long sum = ground (arith, long, sum)

  -- The length and the checksum of a data record pass.
  accepted :
      (hi lo x : ℕ) (bytes : List ℕ)
      → u8 (256 - sum8 0 (length bytes ∷ hi ∷ lo ∷ 0 ∷ bytes)) ≡ x
      → hex_record bus24 s (length bytes ∷ hi ∷ lo ∷ 0 ∷ (bytes ++ x ∷ []))
        ≡ hex_data bus24 (bit_or (hi * 256) lo) s (data_slice (length bytes) (bytes ++ x ∷ []))
  unfolding all_but_last last
  accepted hi lo x [] sum = passed 0 hi lo x [] refl sum
  accepted hi lo x (b ∷ l) sum =
      passed (length (b ∷ l)) hi lo b (l ++ x ∷ []) (omega (arith, length-append l (x ∷ []))) (
        ap (λ k. u8 (256 - sum8 0 (length (b ∷ l) ∷ hi ∷ lo ∷ 0 ∷ k))) (all_but_last-append b x l)
        ∙ sum
        ∙ sym (last-append b x l))

  module _ (addr : ℕ) (bytes : List ℕ) where
    record_read :
        addr < 65536
        → (r : HexStep B)
        → ((x : ℕ) → hex_data bus24 addr s (data_slice (length bytes) (bytes ++ x ∷ [])) ≡ r)
        → hex_record bus24 s (data_record addr bytes) ≡ r
    unfolding data_record with_checksum
    record_read lt r h =
        let x : ℕ = u8 (256 - sum8 0 (length bytes ∷ hi_byte addr ∷ u8 addr ∷ 0 ∷ bytes)) in
        let whole : bit_or (hi_byte addr * 256) (u8 addr) ≡ addr =
          join (hi_byte addr) (u8 addr) (omega arith) (omega arith) ∙ omega (arith, lt) in
        accepted (hi_byte addr) (u8 addr) x bytes refl
        ∙ ap (λ a. hex_data bus24 a s (data_slice (length bytes) (bytes ++ x ∷ []))) whole
        ∙ h x

    sliced : (x : ℕ) → length bytes < 252 → data_slice (length bytes) (bytes ++ x ∷ []) ≡ some bytes
    unfolding data_slice
    sliced x small =
        let count : u8 (4 + length bytes) - 4 ≡ length bytes = omega (arith, small) in
        let kept : take (u8 (4 + length bytes) - 4) (bytes ++ x ∷ []) ≡ bytes =
          ap (λ n. take n (bytes ++ x ∷ [])) count ∙ take-append_length bytes (x ∷ []) in
        ground (arith, small, kept)

    overrun :
        (x : ℕ)
        → 252 ≤ length bytes
        → length bytes < 256
        → data_slice (length bytes) (bytes ++ x ∷ []) ≡ none
    unfolding data_slice
    overrun x big small = ground (arith, big, small)

    -- A data record of at most 251 bytes whose load address, base included, lies in bank 0, and which ends
    -- there, loads its bytes into RAM at that address, and the load goes on, with the bytes counted.
    pub hex_record-loads :
        addr < 65536
        → length bytes < 252
        → s.base + addr + length bytes ≤ 0x10000
        → s.base + addr < 0x10000
        → (ram : Ram) × (hex_record bus24 s (data_record addr bytes)
            ≡ next (noted (s.base + addr) bytes (record s { memories = (ram, s.memories.1) })))
          × IsLoaded s.memories.0 (s.base + addr) bytes ram
    hex_record-loads lt small ends below =
        let (ram, done, h) = load-IsLoaded bytes s.memories.0 (s.base + addr) ends in
        let wrap : u32 (s.base + addr) ≡ s.base + addr = omega (arith, below) in
        (
          ram,
          record_read lt _ (λ x.
              ap (hex_data bus24 addr s) (sliced x small)
              ∙ ground (arith, ends, below, wrap, done)),
          h,
        )

    -- A well-formed data record of 252 to 255 bytes makes the loader panic, whatever its address.
    pub hex_record-crashes :
        addr < 65536
        → 252 ≤ length bytes
        → length bytes < 256
        → hex_record bus24 s (data_record addr bytes) ≡ crashed
    hex_record-crashes lt big small =
        record_read lt crashed λ x. ap (hex_data bus24 addr s) (overrun x big small)
