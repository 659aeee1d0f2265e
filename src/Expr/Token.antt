-- ===== src/Expr/Token.antt =====
-- expr.go's tokens: a `tok` is its kind, with its value for tkNum and its name for tkIdent.
use chippy.Prelude.{ℕ, List}

pub data Tok : Type 0 where
  tk_num : ℕ → Tok
  tk_ident : List ℕ → Tok
  tk_lparen tk_rparen tk_lbracket tk_rbracket : Tok
  tk_plus tk_minus tk_star tk_slash tk_amp tk_pipe tk_caret tk_bang : Tok
  tk_lt tk_le tk_gt tk_ge tk_eq tk_ne tk_and_and tk_or_or tk_shl tk_shr : Tok
