-- ===== src/Expr/Parse/Operators.antt =====
-- The operators of each level of expr.go's parser, and the levels by rank.
use chippy.Prelude.{ℕ, zero, suc, ◌-◌, ◌≤◌, ◌<◌, ◌≡◌, refl, none, some, List, [], ◌∷◌, arith}
use chippy.Expr.Token.{
  Tok, tk_plus, tk_minus, tk_star, tk_slash, tk_amp, tk_pipe, tk_caret, tk_lt, tk_le, tk_gt, tk_ge,
  tk_eq, tk_ne, tk_and_and, tk_or_or, tk_shl, tk_shr,
}
use chippy.Expr.Parse.{
  Level, or_level, and_level, eq_level, rel_level, bit_or_level, bit_xor_level, bit_and_level,
  shift_level, add_level, mul_level, chain, operand, operator,
}
use chippy.Expr.Parse.Fuel.{rank}
use chippy.Expr.Syntax.{
  BinOp, or_op, and_op, eq_op, ne_op, lt_op, le_op, gt_op, ge_op, bit_or_op, bit_xor_op, bit_and_op,
  shl_op, shr_op, plus_op, minus_op, times_op, divide_op, level, token, apply,
}

-- The rank of the level whose operator starts the rest, one above all levels if none does.
abbrev pub tok_rank : Tok → ℕ
tok_rank tk_or_or = 10
tok_rank tk_and_and = 9
tok_rank tk_eq = 8
tok_rank tk_ne = 8
tok_rank tk_lt = 7
tok_rank tk_le = 7
tok_rank tk_gt = 7
tok_rank tk_ge = 7
tok_rank tk_pipe = 6
tok_rank tk_caret = 5
tok_rank tk_amp = 4
tok_rank tk_shl = 3
tok_rank tk_shr = 3
tok_rank tk_plus = 2
tok_rank tk_minus = 2
tok_rank tk_star = 1
tok_rank tk_slash = 1
tok_rank t = 11

abbrev pub head_rank : List Tok → ℕ
head_rank [] = 11
head_rank (t ∷ rest) = tok_rank t

abbrev pub level_at : ℕ → Level
level_at zero = mul_level
level_at (suc zero) = add_level
level_at (suc (suc zero)) = shift_level
level_at (suc (suc (suc zero))) = bit_and_level
level_at (suc (suc (suc (suc zero)))) = bit_xor_level
level_at (suc (suc (suc (suc (suc zero))))) = bit_or_level
level_at (suc (suc (suc (suc (suc (suc zero)))))) = rel_level
level_at (suc (suc (suc (suc (suc (suc (suc zero))))))) = eq_level
level_at (suc (suc (suc (suc (suc (suc (suc (suc zero)))))))) = and_level
level_at k = or_level

pub token-rank : (op : BinOp) → tok_rank (token op) ≡ rank (level op)
token-rank or_op = refl
token-rank and_op = refl
token-rank eq_op = refl
token-rank ne_op = refl
token-rank lt_op = refl
token-rank le_op = refl
token-rank gt_op = refl
token-rank ge_op = refl
token-rank bit_or_op = refl
token-rank bit_xor_op = refl
token-rank bit_and_op = refl
token-rank shl_op = refl
token-rank shr_op = refl
token-rank plus_op = refl
token-rank minus_op = refl
token-rank times_op = refl
token-rank divide_op = refl

pub level-at_rank : (lv : Level) → level_at (rank lv - 1) ≡ lv
level-at_rank or_level = refl
level-at_rank and_level = refl
level-at_rank eq_level = refl
level-at_rank rel_level = refl
level-at_rank bit_or_level = refl
level-at_rank bit_xor_level = refl
level-at_rank bit_and_level = refl
level-at_rank shift_level = refl
level-at_rank add_level = refl
level-at_rank mul_level = refl

pub rank-level_at : (k : ℕ) → k < 10 → rank (level_at k) ≡ suc k
rank-level_at zero h = refl
rank-level_at (suc zero) h = refl
rank-level_at (suc (suc zero)) h = refl
rank-level_at (suc (suc (suc zero))) h = refl
rank-level_at (suc (suc (suc (suc zero)))) h = refl
rank-level_at (suc (suc (suc (suc (suc zero))))) h = refl
rank-level_at (suc (suc (suc (suc (suc (suc zero)))))) h = refl
rank-level_at (suc (suc (suc (suc (suc (suc (suc zero))))))) h = refl
rank-level_at (suc (suc (suc (suc (suc (suc (suc (suc zero)))))))) h = refl
rank-level_at (suc (suc (suc (suc (suc (suc (suc (suc (suc zero))))))))) h = refl
rank-level_at (suc (suc (suc (suc (suc (suc (suc (suc (suc (suc k)))))))))) h =
    absurd (omega (arith, h))

pub rank_pos : (lv : Level) → 1 ≤ rank lv
rank_pos or_level = omega arith
rank_pos and_level = omega arith
rank_pos eq_level = omega arith
rank_pos rel_level = omega arith
rank_pos bit_or_level = omega arith
rank_pos bit_xor_level = omega arith
rank_pos bit_and_level = omega arith
rank_pos shift_level = omega arith
rank_pos add_level = omega arith
rank_pos mul_level = omega arith

module _ {W : Type 0} where
  pub operator-token : (op : BinOp) → operator (level op) (token op) ≡ some (apply {W = W} op)
  unfolding operator
  operator-token or_op = refl
  operator-token and_op = refl
  operator-token eq_op = refl
  operator-token ne_op = refl
  operator-token lt_op = refl
  operator-token le_op = refl
  operator-token gt_op = refl
  operator-token ge_op = refl
  operator-token bit_or_op = refl
  operator-token bit_xor_op = refl
  operator-token bit_and_op = refl
  operator-token shl_op = refl
  operator-token shr_op = refl
  operator-token plus_op = refl
  operator-token minus_op = refl
  operator-token times_op = refl
  operator-token divide_op = refl

  pub no_operator : (lv : Level) (t : Tok) → rank lv < tok_rank t → operator {W = W} lv t ≡ none
  unfolding operator
  no_operator or_level tk_or_or h = absurd (omega (arith, h))
  no_operator or_level t h = refl
  no_operator and_level tk_and_and h = absurd (omega (arith, h))
  no_operator and_level t h = refl
  no_operator eq_level tk_eq h = absurd (omega (arith, h))
  no_operator eq_level tk_ne h = absurd (omega (arith, h))
  no_operator eq_level t h = refl
  no_operator rel_level tk_lt h = absurd (omega (arith, h))
  no_operator rel_level tk_le h = absurd (omega (arith, h))
  no_operator rel_level tk_gt h = absurd (omega (arith, h))
  no_operator rel_level tk_ge h = absurd (omega (arith, h))
  no_operator rel_level t h = refl
  no_operator bit_or_level tk_pipe h = absurd (omega (arith, h))
  no_operator bit_or_level t h = refl
  no_operator bit_xor_level tk_caret h = absurd (omega (arith, h))
  no_operator bit_xor_level t h = refl
  no_operator bit_and_level tk_amp h = absurd (omega (arith, h))
  no_operator bit_and_level t h = refl
  no_operator shift_level tk_shl h = absurd (omega (arith, h))
  no_operator shift_level tk_shr h = absurd (omega (arith, h))
  no_operator shift_level t h = refl
  no_operator add_level tk_plus h = absurd (omega (arith, h))
  no_operator add_level tk_minus h = absurd (omega (arith, h))
  no_operator add_level t h = refl
  no_operator mul_level tk_star h = absurd (omega (arith, h))
  no_operator mul_level tk_slash h = absurd (omega (arith, h))
  no_operator mul_level t h = refl

  pub operand-level_at :
      (k : ℕ) → suc k < 10 → operand {W = W} (level_at (suc k)) ≡ chain (level_at k)
  unfolding operand
  operand-level_at zero h = refl
  operand-level_at (suc zero) h = refl
  operand-level_at (suc (suc zero)) h = refl
  operand-level_at (suc (suc (suc zero))) h = refl
  operand-level_at (suc (suc (suc (suc zero)))) h = refl
  operand-level_at (suc (suc (suc (suc (suc zero))))) h = refl
  operand-level_at (suc (suc (suc (suc (suc (suc zero)))))) h = refl
  operand-level_at (suc (suc (suc (suc (suc (suc (suc zero))))))) h = refl
  operand-level_at (suc (suc (suc (suc (suc (suc (suc (suc zero)))))))) h = refl
  operand-level_at (suc (suc (suc (suc (suc (suc (suc (suc (suc k))))))))) h =
      absurd (omega (arith, h))
