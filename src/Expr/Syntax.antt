-- ===== src/Expr/Syntax.antt =====
-- The language of expr.go as its package comment gives it: syntax, precedence and meaning.
use chippy.Prelude.{
  ℕ, bit_and, bit_or, bit_xor, not, ltb, ◌==◌, ◌≡◌, Bool, true, false, some, List, ◌∷◌, leb,
}
use chippy.Expr.Value.{
  EvalFn, truth, number, logical_or, logical_and, strict, multiply, divide, logical_not, shift_left,
  shift_right, add, subtract, negate, deref,
}
use chippy.Expr.Token.{
  Tok, tk_num, tk_ident, tk_lparen, tk_rparen, tk_lbracket, tk_rbracket, tk_plus, tk_minus, tk_star,
  tk_slash, tk_amp, tk_pipe, tk_caret, tk_bang, tk_lt, tk_le, tk_gt, tk_ge, tk_eq, tk_ne,
  tk_and_and, tk_or_or, tk_shl, tk_shr,
}
use chippy.Expr.Parse.{
  Level, or_level, and_level, eq_level, rel_level, bit_or_level, bit_xor_level, bit_and_level,
  shift_level, add_level, mul_level, Resolver,
}
use chippy.Expr.Parse.Fuel.{rank}

-- The binary operators, with the level and the token of each.
pub data BinOp : Type 0 where
  or_op and_op eq_op ne_op lt_op le_op gt_op ge_op bit_or_op bit_xor_op bit_and_op shl_op shr_op :
      BinOp
  plus_op minus_op times_op divide_op : BinOp

abbrev pub level : BinOp → Level
level or_op = or_level
level and_op = and_level
level eq_op = eq_level
level ne_op = eq_level
level lt_op = rel_level
level le_op = rel_level
level gt_op = rel_level
level ge_op = rel_level
level bit_or_op = bit_or_level
level bit_xor_op = bit_xor_level
level bit_and_op = bit_and_level
level shl_op = shift_level
level shr_op = shift_level
level plus_op = add_level
level minus_op = add_level
level times_op = mul_level
level divide_op = mul_level

abbrev pub token : BinOp → Tok
token or_op = tk_or_or
token and_op = tk_and_and
token eq_op = tk_eq
token ne_op = tk_ne
token lt_op = tk_lt
token le_op = tk_le
token gt_op = tk_gt
token ge_op = tk_ge
token bit_or_op = tk_pipe
token bit_xor_op = tk_caret
token bit_and_op = tk_amp
token shl_op = tk_shl
token shr_op = tk_shr
token plus_op = tk_plus
token minus_op = tk_minus
token times_op = tk_star
token divide_op = tk_slash

pub data Syntax : Type 0 where
  num : ℕ → Syntax
  name : List ℕ → Syntax
  bang minus byte_at : Syntax → Syntax
  binary : BinOp → Syntax → Syntax → Syntax

abbrev pub precedence : Syntax → ℕ
precedence (binary op l r) = rank (level op)
precedence e = 0

abbrev pub in_parens : Bool → (List Tok → List Tok) → List Tok → List Tok
in_parens false print rest = print rest
in_parens true print rest = tk_lparen ∷ print (tk_rparen ∷ rest)

-- The tokens of an expression, before those of `rest`. A right operand of its own level, and an
-- operand of a lower one, stand in parentheses.
unfoldable pub print : Syntax → List Tok → List Tok
print (num n) rest = tk_num n ∷ rest
print (name s) rest = tk_ident s ∷ rest
print (bang e) rest = tk_bang ∷ in_parens (ltb 0 (precedence e)) (print e) rest
print (minus e) rest = tk_minus ∷ in_parens (ltb 0 (precedence e)) (print e) rest
print (byte_at e) rest = tk_lbracket ∷ print e (tk_rbracket ∷ rest)
print (binary op l r) rest =
    in_parens (ltb (rank (level op)) (precedence l)) (print l)
      (token op ∷ in_parens (leb (rank (level op)) (precedence r)) (print r) rest)

module _ {W : Type 0} where
  abbrev pub apply : BinOp → EvalFn W → EvalFn W → EvalFn W
  apply or_op = logical_or
  apply and_op = logical_and
  apply eq_op = strict λ l r. truth (l == r)
  apply ne_op = strict λ l r. truth (not (l == r))
  apply lt_op = strict λ l r. truth (ltb l r)
  apply le_op = strict λ l r. truth (leb l r)
  apply gt_op = strict λ l r. truth (ltb r l)
  apply ge_op = strict λ l r. truth (leb r l)
  apply bit_or_op = strict bit_or
  apply bit_xor_op = strict bit_xor
  apply bit_and_op = strict bit_and
  apply shl_op = strict shift_left
  apply shr_op = strict shift_right
  apply plus_op = strict add
  apply minus_op = strict subtract
  apply times_op = multiply
  apply divide_op = divide

  -- What an expression means when its names are resolved.
  pub data Means (resolve : Resolver W) : Syntax → EvalFn W → Type 0 where
    means_num : (n : ℕ) → Means resolve (num n) (number n)
    means_name : (s : List ℕ) {f : EvalFn W} → resolve s ≡ some f → Means resolve (name s) f
    means_bang :
        {e : Syntax} {f : EvalFn W} → Means resolve e f → Means resolve (bang e) (logical_not f)
    means_minus :
        {e : Syntax} {f : EvalFn W} → Means resolve e f → Means resolve (minus e) (negate f)
    means_byte_at :
        {e : Syntax} {f : EvalFn W} → Means resolve e f → Means resolve (byte_at e) (deref f)
    means_binary :
        (op : BinOp) {l r : Syntax} {f g : EvalFn W}
        → Means resolve l f
        → Means resolve r g
        → Means resolve (binary op l r) (apply op f g)
