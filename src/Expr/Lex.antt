-- ===== src/Expr/Lex.antt =====
-- expr.go's tokenize, on the bytes of the source text, and Compile.
pub mod Total
use chippy.Prelude.{
  ℕ, zero, suc, ◌+◌, ◌-◌, ◌*◌, ◌%◌, ◌^◌, Bool, true, false, not, ◌&&◌, ◌||◌, Option, none, some,
  List, [], ◌∷◌, length, ltb, leb, ◌==◌, if◌then◌else◌, bit_or,
}
use chippy.Cpu.Lines.{is_empty}
use chippy.Expr.Result.{Result, ok, failed, no_fuel, and_then}
use chippy.Expr.Value.{EvalFn, u32, ident_eval}
use chippy.Expr.Token.{
  Tok, tk_num, tk_ident, tk_lparen, tk_rparen, tk_lbracket, tk_rbracket, tk_plus, tk_minus, tk_star,
  tk_slash, tk_amp, tk_pipe, tk_caret, tk_bang, tk_lt, tk_le, tk_gt, tk_ge, tk_eq, tk_ne,
  tk_and_and, tk_or_or, tk_shl, tk_shr,
}
use chippy.Expr.Parse.{Resolver, parse_all}

abbrev between : ℕ → ℕ → ℕ → Bool
between lo hi c = leb lo c && leb c hi

-- unicode.IsSpace on a byte read as a rune, so that 0x85 and 0xA0 count too.
unfoldable pub is_space : ℕ → Bool
is_space c = between 9 13 c || c == 32 || c == 0x85 || c == 0xA0

unfoldable pub is_digit : ℕ → Bool
is_digit c = between 48 57 c

unfoldable pub is_hex : ℕ → Bool
unfolding is_digit
is_hex c = is_digit c || between 97 102 c || between 65 70 c

unfoldable pub is_ident_start : ℕ → Bool
is_ident_start c = between 97 122 c || between 65 90 c || c == 95

unfoldable pub is_ident_cont : ℕ → Bool
unfolding is_ident_start is_digit
is_ident_cont c = is_ident_start c || is_digit c

-- `for j < len(s) && test(s[j])`: the bytes read, and those left.
unfoldable pub scan : (ℕ → Bool) → List ℕ → List ℕ × List ℕ
scan test [] = ([], [])
scan test (c ∷ s) = let more = scan test s in if test c then (c ∷ more.0, more.1) else ([], c ∷ s)

unfoldable pub hex_digit : ℕ → Option ℕ
hex_digit c =
    if between 48 57 c
    then some (c - 48)
    else if between 97 102 c
    then some (c - 97 + 10)
    else if between 65 70 c
    then some (c - 65 + 10)
    else none

abbrev pub with_digit : Option ℕ → (ℕ → Result ℕ) → Result ℕ
with_digit none more = failed
with_digit (some d) more = more d

unfoldable pub parse_hex : ℕ → List ℕ → Result ℕ
unfolding hex_digit
parse_hex v [] = ok v
parse_hex v (c ∷ s) = with_digit (hex_digit c) λ d. parse_hex (bit_or (u32 (v * 16)) d) s

unfoldable pub parse_decimal : ℕ → List ℕ → ℕ
parse_decimal v [] = v
parse_decimal v (c ∷ s) = parse_decimal (u32 (v * 10 + (c - 48))) s

-- A token, or none for a space, with the bytes that are left.
abbrev pub Step : Type 0
Step = Option Tok × List ℕ

abbrev pub tok : Tok → List ℕ → Result Step
tok t s = ok (some t, s)

-- `i+1 < len(s) && s[i+1] == b`
abbrev pub starts : ℕ → List ℕ → Bool
starts b [] = false
starts b (c ∷ s) = c == b

abbrev pub behind_first : List ℕ → List ℕ
behind_first [] = []
behind_first (c ∷ s) = s

abbrev pub hex_literal : List ℕ × List ℕ → Result Step
hex_literal (digits, rest) = and_then (parse_hex 0 digits) λ v. tok (tk_num v) rest

unfoldable pub lex_equals : List ℕ → Result Step
lex_equals s = if starts 61 s then tok tk_eq (behind_first s) else failed

unfoldable pub lex_less : List ℕ → Result Step
lex_less s =
    if starts 61 s
    then tok tk_le (behind_first s)
    else if starts 60 s
    then tok tk_shl (behind_first s)
    else tok tk_lt s

unfoldable pub lex_greater : List ℕ → Result Step
lex_greater s =
    if starts 61 s
    then tok tk_ge (behind_first s)
    else if starts 62 s
    then tok tk_shr (behind_first s)
    else tok tk_gt s

-- `one`, or `two` if the byte stands twice, or, for `!`, before `=`.
unfoldable pub lex_double : ℕ → Tok → Tok → List ℕ → Result Step
lex_double b two one s = if starts b s then tok two (behind_first s) else tok one s

unfoldable pub lex_dollar : List ℕ → Result Step
unfolding scan is_hex parse_hex
lex_dollar s = if is_empty (scan is_hex s).0 then failed else hex_literal (scan is_hex s)

unfoldable pub lex_number : ℕ → List ℕ → Result Step
unfolding scan is_digit parse_decimal
lex_number c s =
    let (digits, rest) = scan is_digit s in tok (tk_num (parse_decimal 0 (c ∷ digits))) rest

unfoldable pub lex_ident : ℕ → List ℕ → Result Step
unfolding scan is_ident_cont
lex_ident c s = let (name, rest) = scan is_ident_cont s in tok (tk_ident (c ∷ name)) rest

-- The cases of tokenize's switch, on the byte at `i` and those behind it.
unfoldable pub lex_one : ℕ → List ℕ → Result Step
unfolding is_space lex_equals lex_less lex_greater lex_double lex_dollar lex_number lex_ident
    is_digit is_ident_start scan is_hex parse_hex
lex_one c s =
    if is_space c
    then ok (none, s)
    else if c == 40
    then tok tk_lparen s
    else if c == 41
    then tok tk_rparen s
    else if c == 91
    then tok tk_lbracket s
    else if c == 93
    then tok tk_rbracket s
    else if c == 43
    then tok tk_plus s
    else if c == 45
    then tok tk_minus s
    else if c == 42
    then tok tk_star s
    else if c == 47
    then tok tk_slash s
    else if c == 94
    then tok tk_caret s
    else if c == 33
    then lex_double 61 tk_ne tk_bang s
    else if c == 61
    then lex_equals s
    else if c == 60
    then lex_less s
    else if c == 62
    then lex_greater s
    else if c == 38
    then lex_double 38 tk_and_and tk_amp s
    else if c == 124
    then lex_double 124 tk_or_or tk_pipe s
    else if c == 36
    then lex_dollar s
    else if c == 48 && (starts 120 s || starts 88 s)
    then hex_literal (scan is_hex (behind_first s))
    else if is_digit c
    then lex_number c s
    else if is_ident_start c
    then lex_ident c s
    else failed

abbrev pub put : Option Tok → List Tok → List Tok
put none ts = ts
put (some t) ts = t ∷ ts

-- Each round of the loop reads a byte at least: the length is fuel enough.
unfoldable pub lex : ℕ → List ℕ → Result (List Tok)
unfolding lex_one
lex f [] = ok []
lex zero (c ∷ s) = no_fuel
lex (suc f) (c ∷ s) = and_then (lex_one c s) λ (t, rest). and_then (lex f rest) λ ts. ok (put t ts)

unfoldable pub tokenize : List ℕ → Result (List Tok)
unfolding lex
tokenize s = lex (length s) s

unfoldable pub compile : {W : Type 0} → Resolver W → List ℕ → Result (EvalFn W)
unfolding tokenize parse_all
compile resolve src = and_then (tokenize src) λ ts. parse_all resolve ts
