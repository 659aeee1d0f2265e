-- ===== src/Loader/Hex.antt =====
-- loadHEX: Intel HEX, record by record. A line is its bytes; the text is ASCII.
use chippy.Prelude.{
  ℕ, ◌+◌, ◌-◌, ◌*◌, ◌/◌, ◌%◌, ◌^◌, Bool, not, ◌||◌, ◌&&◌, Option, none, some, List, [], ◌∷◌, u8,
  u16, bit_or, nonzero, length, take, ltb, leb, ◌==◌, if◌then◌else◌,
}
use chippy.Memory.{Ram, load}
use chippy.Expr.Value.{u32}

pub data Format : Type 0 where
  bin_format prg_format hex_format linked_format : Format

pub record LoadResult : Type 0 where
  pub load_addr : ℕ
  pub bank : ℕ
  pub size : ℕ
  pub format : Format

-- RAM, and what the 65816's bus reaches.
abbrev pub Memories : Type 0 → Type 0
Memories B = Ram × B

abbrev pub Write24 : Type 0 → Type 0
Write24 B = ℕ → ℕ → B → B

-- The memories after a load; an error leaves what was loaded before it.
pub data Loaded (B : Type 0) : Type 0 where
  loaded : Memories B → LoadResult → Loaded B
  refused : Memories B → Loaded B
  panicked : Loaded B

-- loadHEX's variables.
pub record HexState (B : Type 0) : Type 0 where
  pub base : ℕ
  pub min_addr : ℕ
  pub total : ℕ
  pub memories : Memories B

pub data HexStep (B : Type 0) : Type 0 where
  next eof bad : HexState B → HexStep B
  crashed : HexStep B

unfoldable pub sum8 : ℕ → List ℕ → ℕ
sum8 acc [] = acc
sum8 acc (b ∷ l) = sum8 (u8 (acc + b)) l

-- `raw[:len(raw)-1]` and `raw[len(raw)-1]`, of `b ∷ l`.
unfoldable pub all_but_last : ℕ → List ℕ → List ℕ
all_but_last b [] = []
all_but_last b (c ∷ l) = b ∷ all_but_last c l

unfoldable pub last : ℕ → List ℕ → ℕ
last b [] = b
last b (c ∷ l) = last c l

-- `raw[4 : 4+count]`, of the bytes from raw[4] on. `4+count` is a byte: below 4 the slice panics.
unfoldable pub data_slice : ℕ → List ℕ → Option (List ℕ)
data_slice count body =
    let end : ℕ = u8 (4 + count) in if ltb end 4 then none else some (take (end - 4) body)

module _ {B : Type 0} where
  unfoldable pub write_all24 : Write24 B → ℕ → List ℕ → B → B
  write_all24 write24 eff [] w = w
  write_all24 write24 eff (b ∷ l) w = write_all24 write24 (u32 (eff + 1)) l (write24 eff b w)

  unfoldable pub noted : ℕ → List ℕ → HexState B → HexState B
  noted eff bytes s = record s {
    total = s.total + length bytes;
    min_addr = if ltb eff s.min_addr then eff else s.min_addr;
  }

  abbrev pub bank_zero : ℕ → List ℕ → HexState B → Option Ram → HexStep B
  bank_zero eff bytes s none = crashed
  bank_zero eff bytes s (some ram) =
      next (noted eff bytes (record s { memories = (ram, s.memories.1) }))

  abbrev pub other_bank : ℕ → List ℕ → HexState B → Option (Write24 B) → HexStep B
  other_bank eff bytes s none = bad s
  other_bank eff bytes s (some write24) = next (
      noted eff bytes
        (record s { memories = (s.memories.0, write_all24 write24 eff bytes s.memories.1) }))

  -- A record of type 00; `eff&0xFFFF` is a remainder.
  abbrev pub hex_data : Option (Write24 B) → ℕ → HexState B → Option (List ℕ) → HexStep B
  hex_data bus24 addr s none = crashed
  hex_data bus24 addr s (some bytes) =
      let eff : ℕ = u32 (s.base + addr) in
      if nonzero (eff / 2 ^ 24) || ltb 0x10000 (eff % 0x10000 + length bytes)
      then bad s
      else if ltb eff 0x10000
      then bank_zero eff bytes s (load s.memories.0 eff bytes)
      else other_bank eff bytes s bus24

  -- A record of type 04.
  unfoldable pub hex_base : ℕ → List ℕ → HexState B → HexStep B
  hex_base count (hi ∷ lo ∷ more) s =
      if count == 2 then next (record s { base = bit_or (hi * 2 ^ 24) (lo * 2 ^ 16) }) else bad s
  hex_base count body s = bad s

  -- A line's bytes, decoded.
  unfoldable pub hex_record : Option (Write24 B) → HexState B → List ℕ → HexStep B
  unfolding sum8 all_but_last last data_slice hex_base
  hex_record bus24 s (count ∷ hi ∷ lo ∷ kind ∷ b ∷ more) =
      let raw : List ℕ = hi ∷ lo ∷ kind ∷ b ∷ more in
      let sum : ℕ = sum8 0 (all_but_last count raw) in
      if not (count + 5 == 1 + length raw)
      then bad s
      else if not (u8 (256 - sum) == last count raw)
      then bad s
      else if kind == 0
      then hex_data bus24 (bit_or (hi * 256) lo) s (data_slice count (b ∷ more))
      else if kind == 4
      then hex_base count (b ∷ more) s
      else if kind == 1
      then eof s
      else next s
  hex_record bus24 s short = bad s

-- hex.DecodeString
unfoldable pub hex_value : ℕ → Option ℕ
hex_value c =
    if leb 48 c && leb c 57
    then some (c - 48)
    else if leb 97 c && leb c 102
    then some (c - 87)
    else if leb 65 c && leb c 70
    then some (c - 55)
    else none

abbrev pub decoded : Option ℕ → Option ℕ → Option (List ℕ) → Option (List ℕ)
decoded (some h) (some l) (some rest) = some ((h * 16 + l) ∷ rest)
decoded h l rest = none

unfoldable pub decode_string : List ℕ → Option (List ℕ)
unfolding hex_value
decode_string [] = some []
decode_string (h ∷ []) = none
decode_string (h ∷ l ∷ s) = decoded (hex_value h) (hex_value l) (decode_string s)

-- strings.TrimSpace
unfoldable pub is_blank : ℕ → Bool
is_blank c = leb 9 c && leb c 13 || c == 32

unfoldable pub trim_left : List ℕ → List ℕ
unfolding is_blank
trim_left [] = []
trim_left (c ∷ s) = let rest = trim_left s in if is_blank c then rest else c ∷ s

abbrev pub blank_before : ℕ → List ℕ → List ℕ
blank_before c [] = if is_blank c then [] else c ∷ []
blank_before c (d ∷ s) = c ∷ d ∷ s

unfoldable pub trim_right : List ℕ → List ℕ
unfolding is_blank
trim_right [] = []
trim_right (c ∷ s) = blank_before c (trim_right s)

module _ {B : Type 0} where
  abbrev pub hex_start : Memories B → HexState B
  hex_start m = record { base = 0; min_addr = 0xFFFFFFFF; total = 0; memories = m }

module _ {B : Type 0} (bus24 : Option (Write24 B)) where
  abbrev pub hex_raw : HexState B → Option (List ℕ) → HexStep B
  hex_raw s none = bad s
  hex_raw s (some raw) = hex_record bus24 s raw

  unfoldable pub hex_trimmed : HexState B → List ℕ → HexStep B
  unfolding hex_record decode_string
  hex_trimmed s [] = next s
  hex_trimmed s (c ∷ text) =
      let step = hex_raw s (decode_string text) in if c == 58 then step else bad s

  unfoldable pub hex_result : HexState B → Loaded B
  hex_result s =
      let first : ℕ = if s.min_addr == 0xFFFFFFFF then 0 else s.min_addr in
      loaded s.memories (record {
        load_addr = u16 first;
        bank = u8 (first / 65536);
        size = s.total;
        format = hex_format;
      })

  abbrev pub continue : (HexState B → Loaded B) → HexStep B → Loaded B
  continue more (next s) = more s
  continue more (eof s) = hex_result s
  continue more (bad s) = refused s.memories
  continue more crashed = panicked

  -- The scanner's lines, and whether it stopped at an error.
  unfoldable pub hex_lines : Bool → List (List ℕ) → HexState B → Loaded B
  unfolding hex_result hex_trimmed trim_left trim_right
  hex_lines scan_error [] s = if scan_error then refused s.memories else hex_result s
  hex_lines scan_error (line ∷ lines) s =
      continue (hex_lines scan_error lines) (hex_trimmed s (trim_right (trim_left line)))

  unfoldable pub load_hex : Memories B → Option (List (List ℕ) × Bool) → Loaded B
  unfolding hex_lines
  load_hex m none = refused m
  load_hex m (some (lines, scan_error)) = hex_lines scan_error lines (hex_start m)
