-- ===== src/Symbols.antt =====
-- symbols/symbols.go: the symbols of a cc65 .dbg file. Text is a list of bytes, of ASCII; a map is a
-- list of pairs, the newest first.
pub mod Table
pub mod First
pub mod Fuel
use chippy.Prelude.{
  ℕ, zero, suc, ◌+◌, ◌-◌, ◌*◌, ◌^◌, Bool, true, false, not, ◌&&◌, ◌||◌, Option, none, some, List,
  [], ◌∷◌, length, ltb, leb, ◌==◌, if◌then◌else◌, if-elim,
}
use chippy.Expr.Value.{bytes_eq}
use chippy.Loader.Hex.{hex_value, trim_left, trim_right}

abbrev pub Text : Type 0
Text = List ℕ

-- The value that a key maps to.
unfoldable pub lookup {ℓ κ} :
    {A : Type ℓ} {B : Type κ} → (A → A → Bool) → List (A × B) → A → Option B
lookup same [] a = none
lookup same ((k, v) ∷ l) a = if same k a then some v else lookup same l a

unfoldable pub trim_space : Text → Text
unfolding trim_left trim_right
trim_space s = trim_right (trim_left s)

-- What stands before the first byte that the test takes, and behind it.
abbrev pub cut_more : ℕ → Option (Text × Text) → Option (Text × Text)
cut_more c none = none
cut_more c (some (before, behind)) = some (c ∷ before, behind)

unfoldable pub cut : (ℕ → Bool) → Text → Option (Text × Text)
cut test [] = none
cut test (c ∷ s) = let rest = cut test s in if test c then some ([], s) else cut_more c rest

abbrev pub Fields : Type 0
Fields = List (Text × Text)

-- `if i < len(s) && s[i] == ','`
abbrev pub skip_comma : Text → Text
skip_comma [] = []
skip_comma (c ∷ s) = if c == 44 then s else c ∷ s

abbrev pub starts_quoted : Text → Bool
starts_quoted [] = false
starts_quoted (c ∷ s) = c == 34

abbrev pub behind_one : Text → Text
behind_one [] = []
behind_one (c ∷ s) = s

-- A value and the text behind it; none where a quote is not closed.
abbrev pub quoted_value : Option (Text × Text) → Option (Text × Text)
quoted_value none = none
quoted_value (some (value, rest)) = some (value, skip_comma rest)

abbrev pub plain_value : Text → Option (Text × Text) → Option (Text × Text)
plain_value s none = some (trim_space s, [])
plain_value s (some (value, rest)) = some (trim_space value, rest)

unfoldable pub read_value : Text → Option (Text × Text)
unfolding cut
read_value s =
    if starts_quoted s
    then quoted_value (cut (λ c. c == 34) (behind_one s))
    else plain_value s (cut (λ c. c == 44) s)

abbrev pub put_field : Text → Fields → (Text → Fields → Fields) → Option (Text × Text) → Fields
put_field key out more none = out
put_field key out more (some (value, rest)) = more rest ((key, value) ∷ out)

abbrev pub with_key : Fields → (Text → Text → Fields) → Option (Text × Text) → Fields
with_key out more none = out
with_key out more (some (key, rest)) = more (trim_space key) rest

-- Each round reads a byte at least: the length is fuel enough.
unfoldable pub parse_kv_from : ℕ → Text → Fields → Fields
unfolding cut read_value
parse_kv_from zero s out = out
parse_kv_from (suc fuel) s out =
    with_key out (λ key rest. put_field key out (parse_kv_from fuel) (read_value rest))
      (cut (λ c. c == 61) s)

unfoldable pub parse_kv : Text → Fields
unfolding parse_kv_from
parse_kv s = parse_kv_from (length s) s []

-- strconv.ParseUint at 32 bits, from the digits on; `none` is an error.
unfoldable pub digit_in : ℕ → ℕ → Option ℕ
unfolding hex_value
digit_in base c = elim (hex_value c) [ none ↦ none | some d ↦ if ltb d base then some d else none ]

abbrev pub with_digit : ℕ → ℕ → (ℕ → Option ℕ) → Option ℕ → Option ℕ
with_digit base v more none = none
with_digit base v more (some d) = if ltb (v * base + d) (2 ^ 32) then more (v * base + d) else none

unfoldable pub parse_digits : ℕ → ℕ → Text → Option ℕ
unfolding digit_in
parse_digits base v [] = some v
parse_digits base v (c ∷ s) = with_digit base v (λ w. parse_digits base w s) (digit_in base c)

unfoldable pub parse_uint : ℕ → Text → Option ℕ
unfolding parse_digits
parse_uint base [] = none
parse_uint base (c ∷ s) = parse_digits base 0 (c ∷ s)

-- `0x`, `0X`, `$` or decimal.
unfoldable pub parse_prefixed : Text → Option ℕ
unfolding parse_uint
parse_prefixed [] = parse_uint 10 []
parse_prefixed (c ∷ []) = if c == 36 then parse_uint 16 [] else parse_uint 10 (c ∷ [])
parse_prefixed (c ∷ d ∷ s) =
    if c == 48 && (d == 120 || d == 88)
    then parse_uint 16 s
    else if c == 36
    then parse_uint 16 (d ∷ s)
    else parse_uint 10 (c ∷ d ∷ s)

unfoldable pub parse_num : Text → Option ℕ
unfolding parse_prefixed trim_space
parse_num s = parse_prefixed (trim_space s)
