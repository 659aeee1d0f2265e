-- ===== src/Expr/Lex/Total.antt =====
-- The lexer and the parser return on every source text.
use chippy.Prelude.{
  ℕ, zero, suc, ◌+◌, ◌*◌, ◌≤◌, ◌≢◌, Bool, true, false, ◌&&◌, ◌||◌, Option, none, some, List, [],
  ◌∷◌, length, ◌==◌, if◌then◌else◌, arith,
}
use chippy.Cpu.Lines.{is_empty}
use chippy.Expr.Result.{Result, no_fuel, Agree, same, error, Agree-and_then, Agree-returns}
use chippy.Expr.Value.{EvalFn}
use chippy.Expr.Token.{
  Tok, tk_num, tk_lparen, tk_rparen, tk_lbracket, tk_rbracket, tk_plus, tk_minus, tk_star, tk_slash,
  tk_amp, tk_pipe, tk_caret, tk_bang, tk_lt, tk_le, tk_gt, tk_ge, tk_eq, tk_ne, tk_and_and,
  tk_or_or, tk_shl, tk_shr,
}
use chippy.Expr.Parse.{Resolver, chain, or_level, parse_all, finish}
use chippy.Expr.Parse.Fuel.{need, depth, parse-Agree}
use chippy.Expr.Lex.{
  is_space, is_digit, is_hex, is_ident_start, is_ident_cont, scan, hex_digit, with_digit, parse_hex,
  Step, tok, starts, behind_first, hex_literal, lex_equals, lex_less, lex_greater, lex_double,
  lex_dollar, lex_number, lex_ident, lex_one, lex, tokenize, compile,
}

-- A step that leaves no more than `s`.
unfoldable Within : List ℕ → Step → Type 0
Within s (t, rest) = length rest ≤ length s

abbrev Kept : List ℕ → Result Step → Type 0
Kept s r = Agree (Within s) r r

branch :
    (s : List ℕ) (b : Bool) (q r : Result Step) → Kept s q → Kept s r → Kept s (if b then q else r)
branch s true q r h k = h
branch s false q r h k = k

scan-length : (test : ℕ → Bool) (s : List ℕ) → length (scan test s).1 ≤ length s
unfolding scan
scan-length test [] = omega arith
scan-length test (c ∷ s) = ground (arith, scan-length test s)

behind_first-length : (s : List ℕ) → length (behind_first s) ≤ length s
behind_first-length [] = omega arith
behind_first-length (c ∷ s) = omega arith

tok-Kept : (t : Tok) (s rest : List ℕ) → length rest ≤ length s → Kept s (tok t rest)
unfolding Within
tok-Kept t s rest le = same le

with_digit-Kept :
    (d : Option ℕ) (more : ℕ → Result ℕ)
    → ((v : ℕ) → Agree (λ _. Unit {0}) (more v) (more v))
    → Agree (λ _. Unit {0}) (with_digit d more) (with_digit d more)
with_digit-Kept none more h = error
with_digit-Kept (some d) more h = h d

parse_hex-Kept : (s : List ℕ) (v : ℕ) → Agree (λ _. Unit {0}) (parse_hex v s) (parse_hex v s)
unfolding parse_hex
parse_hex-Kept [] v = same tt
parse_hex-Kept (c ∷ s) v = with_digit-Kept (hex_digit c) _ λ d. parse_hex-Kept s _

hex_literal-Kept : (s t : List ℕ) → length t ≤ length s → Kept s (hex_literal (scan is_hex t))
hex_literal-Kept s t le =
    Agree-and_then (parse_hex-Kept (scan is_hex t).0 0)
      λ v h. tok-Kept (tk_num v) s (scan is_hex t).1 (omega (arith, le, scan-length is_hex t))

double-Kept : (b : ℕ) (two one : Tok) (s : List ℕ) → Kept s (lex_double b two one s)
unfolding lex_double
double-Kept b two one s =
    branch s (starts b s) _ _ (tok-Kept two s (behind_first s) (behind_first-length s))
      (tok-Kept one s s (omega arith))

equals-Kept : (s : List ℕ) → Kept s (lex_equals s)
unfolding lex_equals
equals-Kept s =
    branch s (starts 61 s) _ _ (tok-Kept tk_eq s (behind_first s) (behind_first-length s)) error

less-Kept : (s : List ℕ) → Kept s (lex_less s)
unfolding lex_less
less-Kept s =
    branch s (starts 61 s) _ _ (tok-Kept tk_le s (behind_first s) (behind_first-length s)) (
      branch s (starts 60 s) _ _ (tok-Kept tk_shl s (behind_first s) (behind_first-length s))
        (tok-Kept tk_lt s s (omega arith)))

greater-Kept : (s : List ℕ) → Kept s (lex_greater s)
unfolding lex_greater
greater-Kept s =
    branch s (starts 61 s) _ _ (tok-Kept tk_ge s (behind_first s) (behind_first-length s)) (
      branch s (starts 62 s) _ _ (tok-Kept tk_shr s (behind_first s) (behind_first-length s))
        (tok-Kept tk_gt s s (omega arith)))

dollar-Kept : (s : List ℕ) → Kept s (lex_dollar s)
unfolding lex_dollar
dollar-Kept s = branch s (is_empty (scan is_hex s).0) _ _ error (hex_literal-Kept s s (omega arith))

number-Kept : (c : ℕ) (s : List ℕ) → Kept s (lex_number c s)
unfolding lex_number
number-Kept c s = tok-Kept _ s (scan is_digit s).1 (scan-length is_digit s)

ident-Kept : (c : ℕ) (s : List ℕ) → Kept s (lex_ident c s)
unfolding lex_ident
ident-Kept c s = tok-Kept _ s (scan is_ident_cont s).1 (scan-length is_ident_cont s)

one-Kept : (c : ℕ) (s : List ℕ) → Kept s (lex_one c s)
unfolding lex_one Within
one-Kept c s =
    let plain : (t : Tok) → Kept s (tok t s) = λ t. tok-Kept t s s (omega arith) in
    branch s (is_space c) _ _ (same (omega arith)) (
      branch s (c == 40) _ _ (plain tk_lparen) (
        branch s (c == 41) _ _ (plain tk_rparen) (
          branch s (c == 91) _ _ (plain tk_lbracket) (
            branch s (c == 93) _ _ (plain tk_rbracket) (
              branch s (c == 43) _ _ (plain tk_plus) (
                branch s (c == 45) _ _ (plain tk_minus) (
                  branch s (c == 42) _ _ (plain tk_star) (
                    branch s (c == 47) _ _ (plain tk_slash) (
                      branch s (c == 94) _ _ (plain tk_caret) (
                        branch s (c == 33) _ _ (double-Kept 61 tk_ne tk_bang s) (
                          branch s (c == 61) _ _ (equals-Kept s) (
                            branch s (c == 60) _ _ (less-Kept s) (
                              branch s (c == 62) _ _ (greater-Kept s) (
                                branch s (c == 38) _ _ (double-Kept 38 tk_and_and tk_amp s) (
                                  branch s (c == 124) _ _ (double-Kept 124 tk_or_or tk_pipe s) (
                                    branch s (c == 36) _ _ (dollar-Kept s) (
                                      branch s (c == 48 && (starts 120 s || starts 88 s)) _ _
                                        (hex_literal-Kept s (behind_first s)
                                          (behind_first-length s))
                                        (branch s (is_digit c) _ _ (number-Kept c s) (
                                          branch s (is_ident_start c) _ _ (ident-Kept c s)
                                            error)))))))))))))))))))

lex-Kept : (f : ℕ) (s : List ℕ) → length s ≤ f → Agree (λ _. Unit {0}) (lex f s) (lex f s)
unfolding lex Within
lex-Kept f [] le = same tt
lex-Kept zero (c ∷ s) le = absurd (omega (arith, le))
lex-Kept (suc f) (c ∷ s) le =
    Agree-and_then (one-Kept c s) λ (t, rest) within.
      Agree-and_then (lex-Kept f rest (omega (arith, within, le))) λ ts h. same tt

module _ {W : Type 0} (resolve : Resolver W) where
  finish-Kept : (e : EvalFn W) (ts : List Tok) → Agree (λ _. Unit {0}) (finish e ts) (finish e ts)
  finish-Kept e [] = same tt
  finish-Kept e (t ∷ ts) = error

  parse_all-Kept :
      (ts : List Tok) → Agree (λ _. Unit {0}) (parse_all resolve ts) (parse_all resolve ts)
  unfolding parse_all need depth
  parse_all-Kept ts =
      let enough : ℕ = 12 * length ts + 12 in
      Agree-and_then
        (parse-Agree resolve enough enough (chain or_level) ts (omega arith) (omega arith))
        λ (e, rest) h. finish-Kept e rest

  -- Compile returns on every source text, an evaluator or an error: the fuel of the lexer's loop and of
  -- the parser's calls, which the program does not have, never runs out.
  pub compile-returns : (src : List ℕ) → compile resolve src ≢ no_fuel
  unfolding compile tokenize
  compile-returns src =
      Agree-returns
        (Agree-and_then (lex-Kept (length src) src (omega arith)) λ ts h. parse_all-Kept ts)
