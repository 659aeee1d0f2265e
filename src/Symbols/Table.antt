-- ===== src/Symbols/Table.antt =====
-- symbols.go's Table, and LoadDbg line by line.
use chippy.Prelude.{ℕ, Bool, ◌||◌, Option, none, some, List, [], ◌∷◌, ltb, ◌==◌, if◌then◌else◌}
use chippy.Expr.Value.{bytes_eq}
use chippy.Symbols.{Text, Fields, lookup, trim_space, cut, parse_kv, parse_num}

pub record Table : Type 0 where
  pub by_addr : List (ℕ × Text)
  pub by_name : List (Text × ℕ)
  pub size_by_addr : List (ℕ × ℕ)

abbrev pub no_symbols : Table
no_symbols = record { by_addr = []; by_name = []; size_by_addr = [] }

-- `""` for an address without a symbol, 0 for one without a size.
abbrev pub or_empty : Option Text → Text
or_empty none = []
or_empty (some s) = s

abbrev pub or_zero : Option ℕ → ℕ
or_zero none = 0
or_zero (some n) = n

unfoldable pub lookup_addr : Table → ℕ → Text
unfolding lookup
lookup_addr t addr = or_empty (lookup (λ a b. a == b) t.by_addr addr)

unfoldable pub lookup_name : Table → Text → Option ℕ
unfolding lookup bytes_eq
lookup_name t name = lookup bytes_eq t.by_name name

unfoldable pub size : Table → ℕ → ℕ
unfolding lookup
size t addr = or_zero (lookup (λ a b. a == b) t.size_by_addr addr)

-- What a `sym` record adds: a size where one is listed and above 0.
pub record Entry : Type 0 where
  pub name : Text
  pub addr : ℕ
  pub extent : Option ℕ

-- strings.Trim(s, `"`)
unfoldable pub unquote_left : Text → Text
unquote_left [] = []
unquote_left (c ∷ s) = let rest = unquote_left s in if c == 34 then rest else c ∷ s

abbrev pub quote_before : ℕ → Text → Text
quote_before c [] = if c == 34 then [] else c ∷ []
quote_before c (d ∷ s) = c ∷ d ∷ s

unfoldable pub unquote_right : Text → Text
unquote_right [] = []
unquote_right (c ∷ s) = quote_before c (unquote_right s)

abbrev pub without_underscore : Text → Text
without_underscore [] = []
without_underscore (c ∷ s) = if c == 95 then s else c ∷ s

unfoldable pub shown_name : Text → Text
unfolding unquote_left unquote_right
shown_name raw = without_underscore (unquote_right (unquote_left raw))

abbrev pub positive : Option ℕ → Option ℕ
positive none = none
positive (some n) = if ltb 0 n then some n else none

abbrev pub sized : Option Text → Option ℕ
sized none = none
sized (some s) = positive (parse_num s)

abbrev pub located : Text → Option ℕ → Option Text → Option Entry
located [] addr extent = none
located (c ∷ s) none extent = none
located (c ∷ s) (some addr) extent =
    if ltb 0xFFFF addr
    then none
    else some (record { name = c ∷ s; addr = addr; extent = sized extent })

abbrev pub field_entry : Option Text → Option Text → Option Text → Option Entry
field_entry none val extent = none
field_entry (some name) none extent = none
field_entry (some name) (some val) extent = located (shown_name name) (parse_num val) extent

-- "sym", "name", "val" and "size"
abbrev sym_tag : Text
sym_tag = 115 ∷ 121 ∷ 109 ∷ []

abbrev name_key : Text
name_key = 110 ∷ 97 ∷ 109 ∷ 101 ∷ []

abbrev val_key : Text
val_key = 118 ∷ 97 ∷ 108 ∷ []

abbrev size_key : Text
size_key = 115 ∷ 105 ∷ 122 ∷ 101 ∷ []

unfoldable pub fields_entry : Fields → Option Entry
unfolding lookup bytes_eq shown_name parse_num
fields_entry fields =
    field_entry (lookup bytes_eq fields name_key) (lookup bytes_eq fields val_key)
      (lookup bytes_eq fields size_key)

abbrev pub tagged : Option (Text × Text) → Option Entry
tagged none = none
tagged (some (tag, rest)) =
    let entry = fields_entry (parse_kv (trim_space rest)) in
    if bytes_eq tag sym_tag then entry else none

-- The symbol that a line defines, if any: its tag ends at a tab or a space.
unfoldable pub line_entry : Text → Option Entry
unfolding cut fields_entry parse_kv trim_space bytes_eq
line_entry line = tagged (cut (λ c. c == 9 || c == 32) line)

-- Where there is none yet.
abbrev pub keep_first {ℓ κ} :
    {A : Type ℓ} {B : Type κ} → A → B → List (A × B) → Option B → List (A × B)
keep_first k v l none = (k, v) ∷ l
keep_first k v l (some old) = l

abbrev pub with_extent : ℕ → List (ℕ × ℕ) → Option ℕ → List (ℕ × ℕ)
with_extent addr l none = l
with_extent addr l (some n) = (addr, n) ∷ l

unfoldable pub add : Entry → Table → Table
unfolding lookup bytes_eq
add e t = record {
  by_addr = keep_first e.addr e.name t.by_addr (lookup (λ a b. a == b) t.by_addr e.addr);
  by_name = keep_first e.name e.addr t.by_name (lookup bytes_eq t.by_name e.name);
  size_by_addr = with_extent e.addr t.size_by_addr e.extent;
}

abbrev pub add_if : Option Entry → Table → Table
add_if none t = t
add_if (some e) t = add e t

unfoldable pub load_lines : List Text → Table → Table
unfolding add line_entry
load_lines [] t = t
load_lines (line ∷ lines) t = load_lines lines (add_if (line_entry line) t)

-- The scanner's lines, and whether it stopped at an error.
unfoldable pub load_dbg : Option (List Text × Bool) → Option Table
unfolding load_lines
load_dbg none = none
load_dbg (some (lines, scan_error)) =
    if scan_error then none else some (load_lines lines no_symbols)
