-- ===== src/Loader/Text.antt =====
-- An Intel HEX file as text, with one data record.
use chippy.Prelude.{
  ℕ, ◌+◌, ◌*◌, ◌/◌, ◌%◌, ◌<◌, ◌≤◌, ◌≡◌, refl, ap, subst, ◌∙◌, false, Option, some, List, [], ◌∷◌,
  ◌++◌, length, ltb, if◌then◌else◌, arith,
}
use chippy.Memory.{Ram}
use chippy.Memory.Load.{IsLoaded}
use chippy.Loader.Hex.{
  Memories, Write24, Loaded, loaded, hex_format, HexState, eof, sum8, all_but_last, last, decoded,
  hex_value, decode_string, is_blank, trim_left, trim_right, blank_before, hex_raw, hex_trimmed,
  hex_result, hex_lines, hex_start, load_hex, hex_record, noted, continue,
}
use chippy.Loader.Record.{data_record, with_checksum, hex_record-loads}

-- Every number of the list is a byte.
pub data Bytes : List ℕ → Type 0 where
  no_bytes : Bytes []
  a_byte : {b : ℕ} {l : List ℕ} → b < 256 → Bytes l → Bytes (b ∷ l)

abbrev pub digit : ℕ → ℕ
digit d = if ltb d 10 then 48 + d else 55 + d

-- Two digits for each byte, in upper case.
unfoldable pub encode : List ℕ → List ℕ
encode [] = []
encode (b ∷ l) = digit (b / 16) ∷ digit (b % 16) ∷ encode l

digit_value : (d : ℕ) → d < 16 → hex_value (digit d) ≡ some d
unfolding hex_value
digit_value d lt = ground (arith, lt)

digit_visible : (d : ℕ) → is_blank (digit d) ≡ false
unfolding is_blank
digit_visible d = ground arith

decode-encode : {l : List ℕ} → Bytes l → decode_string (encode l) ≡ some l
unfolding decode_string encode
decode-encode no_bytes = refl
decode-encode (a_byte {b} {l} lt h) =
    let whole : b / 16 * 16 + b % 16 ≡ b = omega arith in
    ap (λ o. decoded o (hex_value (digit (b % 16))) (decode_string (encode l)))
      (digit_value (b / 16) (omega (arith, lt)))
    ∙ ap (λ o. decoded (some (b / 16)) o (decode_string (encode l)))
        (digit_value (b % 16) (omega arith))
    ∙ ap (λ o. decoded (some (b / 16)) (some (b % 16)) o) (decode-encode h)
    ∙ ap (λ c. some (c ∷ l)) whole

before_visible : (c : ℕ) (s : List ℕ) → is_blank c ≡ false → blank_before c s ≡ c ∷ s
before_visible c [] e = ap (λ b. if b then [] else c ∷ []) e
before_visible c (d ∷ s) e = refl

trim_right-encode : (l : List ℕ) → trim_right (encode l) ≡ encode l
unfolding trim_right encode
trim_right-encode [] = refl
trim_right-encode (b ∷ l) =
    ap (λ s. blank_before (digit (b / 16)) (blank_before (digit (b % 16)) s)) (trim_right-encode l)
    ∙ ap (blank_before (digit (b / 16)))
        (before_visible (digit (b % 16)) (encode l) (digit_visible (b % 16)))
    ∙ before_visible (digit (b / 16)) (digit (b % 16) ∷ encode l) (digit_visible (b / 16))

-- A line: a colon and the digits of the record.
unfoldable pub hex_line : List ℕ → List ℕ
unfolding encode
hex_line raw = 58 ∷ encode raw

abbrev pub eof_line : List ℕ
eof_line = 58 ∷ 48 ∷ 48 ∷ 48 ∷ 48 ∷ 48 ∷ 48 ∷ 48 ∷ 49 ∷ 70 ∷ 70 ∷ []

trim-line : (raw : List ℕ) → trim_right (trim_left (hex_line raw)) ≡ hex_line raw
unfolding trim_left trim_right is_blank hex_line
trim-line raw = ap (blank_before 58) (trim_right-encode raw) ∙ before_visible 58 (encode raw) refl

module _ {B : Type 0} (bus24 : Option (Write24 B)) where
  line_read :
      (s : HexState B) (raw : List ℕ)
      → Bytes raw
      → hex_trimmed bus24 s (trim_right (trim_left (hex_line raw))) ≡ hex_record bus24 s raw
  unfolding hex_trimmed hex_line
  line_read s raw h =
      ap (hex_trimmed bus24 s) (trim-line raw) ∙ ap (hex_raw bus24 s) (decode-encode h)

  append-Bytes : {l : List ℕ} → Bytes l → (x : ℕ) → x < 256 → Bytes (l ++ x ∷ [])
  append-Bytes no_bytes x lt = a_byte lt no_bytes
  append-Bytes (a_byte b h) x lt = a_byte b (append-Bytes h x lt)

  record_Bytes :
      (addr : ℕ) {bytes : List ℕ}
      → Bytes bytes
      → length bytes < 256
      → Bytes (data_record addr bytes)
  unfolding data_record with_checksum
  record_Bytes addr h small = a_byte small (
      a_byte (omega arith)
        (a_byte (omega arith) (a_byte (omega arith) (append-Bytes h _ (omega arith)))))

  abbrev loaded_at : Ram → B → ℕ → List ℕ → Loaded B
  loaded_at ram high addr bytes =
      loaded (ram, high)
        (record { load_addr = addr; bank = 0; size = length bytes; format = hex_format })

  result_of :
      (m : Memories B) (ram : Ram) (addr : ℕ) (bytes : List ℕ)
      → addr < 0x10000
      → hex_result bus24 (noted addr bytes (record (hex_start m) { memories = (ram, m.1) }))
        ≡ loaded_at ram m.1 addr bytes
  unfolding hex_result noted
  result_of m ram addr bytes below = ground (arith, below)

  eof_Bytes : Bytes (0 ∷ 0 ∷ 0 ∷ 1 ∷ 255 ∷ [])
  eof_Bytes = a_byte (omega arith) (
      a_byte (omega arith)
        (a_byte (omega arith) (a_byte (omega arith) (a_byte (omega arith) no_bytes))))

  eof_read : (s : HexState B) → hex_trimmed bus24 s (trim_right (trim_left eof_line)) ≡ eof s
  unfolding hex_record sum8 all_but_last last hex_line
  eof_read s = line_read s (0 ∷ 0 ∷ 0 ∷ 1 ∷ 255 ∷ []) eof_Bytes

  -- The text of a data record of at most 251 bytes that ends in bank 0, and of the end record behind it, is
  -- loaded byte by byte at the record's address, and the result gives the address and the number of bytes.
  pub load_hex-text :
      (m : Memories B) (addr : ℕ) (bytes : List ℕ)
      → Bytes bytes
      → length bytes < 252
      → addr + length bytes ≤ 0x10000
      → addr < 0x10000
      → (ram : Ram) × (load_hex bus24 m
            (some (hex_line (data_record addr bytes) ∷ eof_line ∷ [], false))
          ≡ loaded
              (ram, m.1)
              (record { load_addr = addr; bank = 0; size = length bytes; format = hex_format }))
        × IsLoaded m.0 addr bytes ram
  unfolding load_hex hex_lines
  load_hex-text m addr bytes h small ends below =
      let (ram, read, placed) =
        hex_record-loads bus24 (hex_start m) addr bytes below small (omega (arith, ends))
          (omega (arith, below)) in
      let base : 0 + addr ≡ addr = omega arith in
      let after : HexState B = noted addr bytes (record (hex_start m) { memories = (ram, m.1) }) in
      let more : HexState B → Loaded B = hex_lines bus24 false (eof_line ∷ []) in
      (
        ram,
        ap (continue bus24 more) (
              line_read (hex_start m) (data_record addr bytes)
                (record_Bytes addr h (omega (arith, small)))
              ∙ read)
            ∙ ap (λ a. more (noted a bytes (record (hex_start m) { memories = (ram, m.1) }))) base
            ∙ ap (continue bus24 (hex_lines bus24 false [])) (eof_read after)
            ∙ result_of m ram addr bytes below,
        subst (λ a. IsLoaded m.0 a bytes ram) base placed,
      )
