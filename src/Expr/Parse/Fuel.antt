-- ===== src/Expr/Parse/Fuel.antt =====
-- The parser's fuel: how much a call needs, and that what it is given beyond that does not matter.
use chippy.Prelude.{
  ℕ, zero, suc, ◌+◌, ◌*◌, ◌≤◌, ◌<◌, ◌≡◌, refl, ◌∙◌, Option, none, some, List, [], ◌∷◌, length,
  arith,
}
use chippy.Expr.Result.{ok, and_then, Agree, same, error, Agree-path, Agree-and_then, Agree-weaken}
use chippy.Expr.Value.{EvalFn}
use chippy.Expr.Token.{
  Tok, tk_num, tk_ident, tk_lparen, tk_rparen, tk_lbracket, tk_rbracket, tk_minus, tk_bang,
}
use chippy.Expr.Parse.{
  Level, or_level, and_level, eq_level, rel_level, bit_or_level, bit_xor_level, bit_and_level,
  shift_level, add_level, mul_level, Task, chain, loop, unary, primary, operand, operator, Parser,
  Resolver, parse_chain, parse_loop, loop_with, parse_unary, parse_primary, close_paren,
  close_bracket, resolved, call, parse,
}

-- How deep in the chain of operands a call stands.
abbrev pub rank : Level → ℕ
rank or_level = 10
rank and_level = 9
rank eq_level = 8
rank rel_level = 7
rank bit_or_level = 6
rank bit_xor_level = 5
rank bit_and_level = 4
rank shift_level = 3
rank add_level = 2
rank mul_level = 1

pub rank_le : (lv : Level) → rank lv ≤ 10
rank_le or_level = omega arith
rank_le and_level = omega arith
rank_le eq_level = omega arith
rank_le rel_level = omega arith
rank_le bit_or_level = omega arith
rank_le bit_xor_level = omega arith
rank_le bit_and_level = omega arith
rank_le shift_level = omega arith
rank_le add_level = omega arith
rank_le mul_level = omega arith

module _ {W : Type 0} where
  unfoldable pub depth : Task W → ℕ
  depth (chain lv) = 2 + rank lv
  depth (loop lv left) = 1
  depth unary = 2
  depth primary = 1

  unfoldable pub need : Task W → List Tok → ℕ
  unfolding depth
  need task ts = 12 * length ts + depth task

  -- All but a loop read a token.
  abbrev pub reads : Task W → ℕ
  reads (loop lv left) = 0
  reads task = 1

  unfoldable pub Shrinks : Task W → List Tok → EvalFn W × List Tok → Type 0
  Shrinks task ts (e, rest) = length rest + reads task ≤ length ts

module _ (W : Type 0) where
  depth-operand : (lv : Level) → depth {W = W} (operand lv) < 2 + rank lv
  unfolding depth operand
  depth-operand or_level = omega arith
  depth-operand and_level = omega arith
  depth-operand eq_level = omega arith
  depth-operand rel_level = omega arith
  depth-operand bit_or_level = omega arith
  depth-operand bit_xor_level = omega arith
  depth-operand bit_and_level = omega arith
  depth-operand shift_level = omega arith
  depth-operand add_level = omega arith
  depth-operand mul_level = omega arith

  reads-operand : (lv : Level) → reads {W = W} (operand lv) ≡ 1
  unfolding operand
  reads-operand or_level = refl
  reads-operand and_level = refl
  reads-operand eq_level = refl
  reads-operand rel_level = refl
  reads-operand bit_or_level = refl
  reads-operand bit_xor_level = refl
  reads-operand bit_and_level = refl
  reads-operand shift_level = refl
  reads-operand add_level = refl
  reads-operand mul_level = refl

module _ {W : Type 0} where
  depth_pos : (task : Task W) → 1 ≤ depth task
  unfolding depth
  depth_pos (chain lv) = omega arith
  depth_pos (loop lv left) = omega arith
  depth_pos unary = omega arith
  depth_pos primary = omega arith

  need_pos : (task : Task W) (ts : List Tok) → 1 ≤ need task ts
  unfolding need
  need_pos task ts = omega (arith, depth_pos task)

  -- Two parsers that agree, and shrink the input, on every call below the given need.
  abbrev pub AgreeBelow : Parser W → Parser W → ℕ → Type 0
  AgreeBelow p q n =
      (task : Task W) (ts : List Tok)
      → need task ts < n
      → Agree (Shrinks task ts) (p task ts) (q task ts)

  module _ (p q : Parser W) where
    chain-Agree :
        (lv : Level) (ts : List Tok)
        → AgreeBelow p q (need {W = W} (chain lv) ts)
        → Agree (Shrinks (chain lv) ts) (parse_chain p lv ts) (parse_chain q lv ts)
    unfolding parse_chain Shrinks need depth
    chain-Agree lv ts h =
        Agree-and_then (h (operand lv) ts (omega (arith, depth-operand W lv))) λ (e, rest) shorter.
          Agree-weaken (λ (e', rest') le. omega (arith, le, shorter, reads-operand W lv))
            (h (loop lv e) rest (omega (arith, shorter, reads-operand W lv)))

    loop_with-Agree :
        (lv : Level) (left : EvalFn W) (t : Tok) (ts : List Tok)
        (op : Option (EvalFn W → EvalFn W → EvalFn W))
        → AgreeBelow p q (need (loop lv left) (t ∷ ts))
        → Agree
            (Shrinks (loop lv left) (t ∷ ts))
            (loop_with p lv left ts op t)
            (loop_with q lv left ts op t)
    unfolding Shrinks need depth
    loop_with-Agree lv left t ts none h = same (omega arith)
    loop_with-Agree lv left t ts (some op) h =
        Agree-and_then (h (operand lv) ts (omega (arith, depth-operand W lv, rank_le lv)))
          λ (e, rest) shorter.
            Agree-weaken (λ (e', rest') le. omega (arith, le, shorter, reads-operand W lv))
              (h (loop lv (op left e)) rest (omega (arith, shorter, reads-operand W lv)))

    loop-Agree :
        (lv : Level) (left : EvalFn W) (ts : List Tok)
        → AgreeBelow p q (need (loop lv left) ts)
        → Agree (Shrinks (loop lv left) ts) (parse_loop p lv left ts) (parse_loop q lv left ts)
    unfolding parse_loop Shrinks
    loop-Agree lv left [] h = same (omega arith)
    loop-Agree lv left (t ∷ ts) h = loop_with-Agree lv left t ts (operator lv t) h

    prefix-Agree :
        (f : EvalFn W → EvalFn W) (t : Tok) (ts : List Tok)
        → AgreeBelow p q (need {W = W} unary (t ∷ ts))
        → Agree
            (Shrinks unary (t ∷ ts))
            (and_then (p unary ts) λ (x, rest). ok (f x, rest))
            (and_then (q unary ts) λ (x, rest). ok (f x, rest))
    unfolding Shrinks need depth
    prefix-Agree f t ts h =
        Agree-and_then (h unary ts (omega arith)) λ (e, rest) shorter. same (omega (arith, shorter))

    unary-Agree :
        (ts : List Tok)
        → AgreeBelow p q (need {W = W} unary ts)
        → Agree (Shrinks unary ts) (parse_unary p ts) (parse_unary q ts)
    unfolding parse_unary Shrinks need depth
    unary-Agree (tk_bang ∷ ts) h = prefix-Agree _ tk_bang ts h
    unary-Agree (tk_minus ∷ ts) h = prefix-Agree _ tk_minus ts h
    unary-Agree ts h = h primary ts (omega arith)

  close_paren-Agree :
      (e : EvalFn W) (ts rest : List Tok)
      → length rest ≤ length ts
      → Agree (Shrinks primary (tk_lparen ∷ ts)) (close_paren e rest) (close_paren e rest)
  unfolding Shrinks
  close_paren-Agree e ts (tk_rparen ∷ rest) le = same (omega (arith, le))
  close_paren-Agree e ts rest le = error

  close_bracket-Agree :
      (e : EvalFn W) (ts rest : List Tok)
      → length rest ≤ length ts
      → Agree (Shrinks primary (tk_lbracket ∷ ts)) (close_bracket e rest) (close_bracket e rest)
  unfolding Shrinks
  close_bracket-Agree e ts (tk_rbracket ∷ rest) le = same (omega (arith, le))
  close_bracket-Agree e ts rest le = error

  resolved-Agree :
      (t : Tok) (ts : List Tok) (e : Option (EvalFn W))
      → Agree (Shrinks primary (t ∷ ts)) (resolved ts e) (resolved ts e)
  unfolding Shrinks
  resolved-Agree t ts (some e) = same (omega arith)
  resolved-Agree t ts none = error

  module _ (resolve : Resolver W) (p q : Parser W) where
    primary-Agree :
        (ts : List Tok)
        → AgreeBelow p q (need {W = W} primary ts)
        → Agree (Shrinks primary ts) (parse_primary resolve p ts) (parse_primary resolve q ts)
    unfolding parse_primary Shrinks need depth
    primary-Agree [] h = error
    primary-Agree (tk_num v ∷ ts) h = same (omega arith)
    primary-Agree (tk_ident v ∷ ts) h = resolved-Agree (tk_ident v) ts (resolve v)
    primary-Agree (tk_lparen ∷ ts) h =
        Agree-and_then (h (chain or_level) ts (omega arith))
          λ (e, rest) shorter. close_paren-Agree e ts rest (omega (arith, shorter))
    primary-Agree (tk_lbracket ∷ ts) h =
        Agree-and_then (h (chain or_level) ts (omega arith))
          λ (e, rest) shorter. close_bracket-Agree e ts rest (omega (arith, shorter))
    primary-Agree (t ∷ ts) h = error

    call-Agree :
        (task : Task W) (ts : List Tok)
        → AgreeBelow p q (need task ts)
        → Agree (Shrinks task ts) (call resolve p task ts) (call resolve q task ts)
    unfolding call
    call-Agree (chain lv) ts h = chain-Agree p q lv ts h
    call-Agree (loop lv left) ts h = loop-Agree p q lv left ts h
    call-Agree unary ts h = unary-Agree p q ts h
    call-Agree primary ts h = primary-Agree ts h

  module _ (resolve : Resolver W) where
    -- With the fuel that a call needs, and any more, the parser returns, with one outcome.
    pub parse-Agree :
        (f g : ℕ) (task : Task W) (ts : List Tok)
        → need task ts ≤ f
        → need task ts ≤ g
        → Agree (Shrinks task ts) (parse resolve f task ts) (parse resolve g task ts)
    unfolding parse
    parse-Agree zero g task ts hf hg = absurd (omega (arith, need_pos task ts, hf))
    parse-Agree (suc f) zero task ts hf hg = absurd (omega (arith, need_pos task ts, hg))
    parse-Agree (suc f) (suc g) task ts hf hg =
        call-Agree resolve (parse resolve f) (parse resolve g) task ts λ task' ts' below.
          parse-Agree f g task' ts' (omega (arith, below, hf)) (omega (arith, below, hg))

    -- The parser, its fuel left out.
    unfoldable pub run : Parser W
    unfolding parse need
    run task ts = parse resolve (need task ts) task ts

    pub run-call : (task : Task W) (ts : List Tok) → run task ts ≡ call resolve run task ts
    unfolding run parse
    run-call task ts =
        let n : ℕ = need task ts in
        let more : n ≤ suc n = omega arith in
        Agree-path (parse-Agree n (suc n) task ts (omega arith) more)
        ∙ Agree-path (
            call-Agree resolve (parse resolve n) run task ts λ task' ts' below.
              parse-Agree n (need task' ts') task' ts' (omega (arith, below)) (omega arith))
