-- ===== src/Expr/Parse.antt =====
-- expr.go's recursive descent. Each of parseOr to parseMul is a level: its operand, then a loop on
-- the level's operators, which are left-associative.
pub mod Fuel
pub mod Operators
pub mod RoundTrip
use chippy.Prelude.{
  ℕ, zero, suc, ◌+◌, ◌*◌, Bool, true, false, Option, none, some, List, [], ◌∷◌, length, ltb, leb,
  ◌==◌,
}
use chippy.Cpu.State.{Bus, Env, M}
use chippy.Expr.Result.{Result, ok, failed, no_fuel, and_then}
use chippy.Expr.Value.{
  EvalFn, truth, number, logical_or, logical_and, strict, multiply, divide, logical_not, shift_left,
  shift_right, add, subtract, negate, deref, ident_eval,
}
use chippy.Prelude.{bit_and, bit_or, bit_xor, not}
use chippy.Expr.Token.{
  Tok, tk_num, tk_ident, tk_lparen, tk_rparen, tk_lbracket, tk_rbracket, tk_plus, tk_minus, tk_star,
  tk_slash, tk_amp, tk_pipe, tk_caret, tk_bang, tk_lt, tk_le, tk_gt, tk_ge, tk_eq, tk_ne,
  tk_and_and, tk_or_or, tk_shl, tk_shr,
}

pub data Level : Type 0 where
  or_level and_level eq_level rel_level bit_or_level bit_xor_level bit_and_level shift_level
        add_level mul_level :
      Level

-- A call of the parser: parseOr to parseMul at their start or, with `left` read, in their loop,
-- parseUnary, and parsePrimary.
pub data Task (W : Type 0) : Type 0 where
  chain : Level → Task W
  loop : Level → EvalFn W → Task W
  unary primary : Task W

module _ {W : Type 0} where
  unfoldable pub operand : Level → Task W
  operand or_level = chain and_level
  operand and_level = chain eq_level
  operand eq_level = chain rel_level
  operand rel_level = chain bit_or_level
  operand bit_or_level = chain bit_xor_level
  operand bit_xor_level = chain bit_and_level
  operand bit_and_level = chain shift_level
  operand shift_level = chain add_level
  operand add_level = chain mul_level
  operand mul_level = unary

  unfoldable pub operator : Level → Tok → Option (EvalFn W → EvalFn W → EvalFn W)
  operator or_level tk_or_or = some logical_or
  operator and_level tk_and_and = some logical_and
  operator eq_level tk_eq = some (strict λ l r. truth (l == r))
  operator eq_level tk_ne = some (strict λ l r. truth (not (l == r)))
  operator rel_level tk_lt = some (strict λ l r. truth (ltb l r))
  operator rel_level tk_le = some (strict λ l r. truth (leb l r))
  operator rel_level tk_gt = some (strict λ l r. truth (ltb r l))
  operator rel_level tk_ge = some (strict λ l r. truth (leb r l))
  operator bit_or_level tk_pipe = some (strict bit_or)
  operator bit_xor_level tk_caret = some (strict bit_xor)
  operator bit_and_level tk_amp = some (strict bit_and)
  operator shift_level tk_shl = some (strict shift_left)
  operator shift_level tk_shr = some (strict shift_right)
  operator add_level tk_plus = some (strict add)
  operator add_level tk_minus = some (strict subtract)
  operator mul_level tk_star = some multiply
  operator mul_level tk_slash = some divide
  operator lv t = none

-- A parser returns the evaluator with the tokens that are left.
abbrev pub Outcome : Type 0 → Type 0
Outcome W = Result (EvalFn W × List Tok)

abbrev pub Parser : Type 0 → Type 0
Parser W = Task W → List Tok → Outcome W

abbrev pub Resolver : Type 0 → Type 0
Resolver W = List ℕ → Option (EvalFn W)

module _ {W : Type 0} where
  module _ (parser : Parser W) where
    unfoldable pub parse_chain : Level → List Tok → Outcome W
    unfolding operand
    parse_chain lv ts = and_then (parser (operand lv) ts) λ (left, rest). parser (loop lv left) rest

    abbrev pub loop_with :
        Level → EvalFn W → List Tok → Option (EvalFn W → EvalFn W → EvalFn W) → Tok → Outcome W
    loop_with lv left rest none t = ok (left, t ∷ rest)
    loop_with lv left rest (some op) t =
        and_then (parser (operand lv) rest) λ (right, rest'). parser (loop lv (op left right)) rest'

    unfoldable pub parse_loop : Level → EvalFn W → List Tok → Outcome W
    unfolding operand operator
    parse_loop lv left [] = ok (left, [])
    parse_loop lv left (t ∷ rest) = loop_with lv left rest (operator lv t) t

    unfoldable pub parse_unary : List Tok → Outcome W
    parse_unary (tk_bang ∷ rest) =
        and_then (parser unary rest) λ (x, rest'). ok (logical_not x, rest')
    parse_unary (tk_minus ∷ rest) = and_then (parser unary rest) λ (x, rest'). ok (negate x, rest')
    parse_unary ts = parser primary ts

  -- `if !p.accept(k)`, for the closing bracket.
  abbrev pub close_paren : EvalFn W → List Tok → Outcome W
  close_paren e (tk_rparen ∷ rest) = ok (e, rest)
  close_paren e ts = failed

  abbrev pub close_bracket : EvalFn W → List Tok → Outcome W
  close_bracket e (tk_rbracket ∷ rest) = ok (deref e, rest)
  close_bracket e ts = failed

  abbrev pub resolved : List Tok → Option (EvalFn W) → Outcome W
  resolved rest none = failed
  resolved rest (some e) = ok (e, rest)

  module _ (resolve : Resolver W) (parser : Parser W) where
    unfoldable pub parse_primary : List Tok → Outcome W
    parse_primary (tk_num v ∷ rest) = ok (number v, rest)
    parse_primary (tk_lparen ∷ rest) =
        and_then (parser (chain or_level) rest) λ (e, rest'). close_paren e rest'
    parse_primary (tk_lbracket ∷ rest) =
        and_then (parser (chain or_level) rest) λ (e, rest'). close_bracket e rest'
    parse_primary (tk_ident name ∷ rest) = resolved rest (resolve name)
    parse_primary ts = failed

    unfoldable pub call : Parser W
    unfolding parse_chain parse_loop parse_unary parse_primary
    call (chain lv) = parse_chain parser lv
    call (loop lv left) = parse_loop parser lv left
    call unary = parse_unary parser
    call primary = parse_primary

  -- Each call costs a unit of fuel, which the program does not have.
  unfoldable pub parse : Resolver W → ℕ → Parser W
  unfolding call
  parse resolve zero task ts = no_fuel
  parse resolve (suc f) task ts = call resolve (parse resolve f) task ts

  abbrev pub finish : EvalFn W → List Tok → Result (EvalFn W)
  finish e [] = ok e
  finish e (t ∷ ts) = failed

  unfoldable pub parse_all : Resolver W → List Tok → Result (EvalFn W)
  unfolding parse
  parse_all resolve ts =
      and_then (parse resolve (12 * length ts + 12) (chain or_level) ts) λ (e, rest). finish e rest
