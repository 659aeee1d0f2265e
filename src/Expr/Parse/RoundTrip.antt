-- ===== src/Expr/Parse/RoundTrip.antt =====
-- Printed expressions are parsed back: the precedence and the associativity of the operators.
use chippy.Prelude.{
  ℕ, zero, suc, ltb, ◌==◌, ◌-◌, ◌≤◌, ◌<◌, ◌≡◌, refl, ap, subst, ◌∙◌, Bool, true, false, some, List,
  [], ◌∷◌, leb, Bool-cases, inl, inr, arith,
}
use chippy.Expr.Result.{ok, and_then}
use chippy.Expr.Value.{EvalFn, number, logical_not, negate, deref}
use chippy.Expr.Token.{Tok, tk_num, tk_ident, tk_lparen, tk_rparen, tk_rbracket}
use chippy.Expr.Parse.{
  Level, or_level, mul_level, chain, loop, unary, primary, operand, operator, Resolver, parse_chain,
  parse_loop, loop_with, parse_unary, parse_primary, close_paren, close_bracket, resolved, call,
  parse_all, finish,
}
use chippy.Expr.Parse.Fuel.{rank_le, rank}
use chippy.Expr.Parse.Fuel.{rank_le, need, depth, run, run-call}
use chippy.Expr.Syntax.{
  BinOp, level, token, Syntax, num, name, bang, minus, byte_at, binary, precedence, in_parens,
  print, apply, Means, means_num, means_name, means_bang, means_minus, means_byte_at, means_binary,
}
use chippy.Expr.Parse.Operators.{
  tok_rank, head_rank, level_at, token-rank, level-at_rank, rank-level_at, rank_pos, operator-token,
  no_operator, operand-level_at,
}

precedence_le : (e : Syntax) → precedence e ≤ 10
precedence_le (num n) = omega arith
precedence_le (name s) = omega arith
precedence_le (bang e) = omega arith
precedence_le (minus e) = omega arith
precedence_le (byte_at e) = omega arith
precedence_le (binary op l r) = rank_le (level op)

module _ {W : Type 0} (resolve : Resolver W) where
  stop :
      (lv : Level) (f : EvalFn W) (rest : List Tok)
      → rank lv < head_rank rest
      → run resolve (loop lv f) rest ≡ ok (f, rest)
  unfolding call parse_loop
  stop lv f [] h = run-call resolve (loop lv f) []
  stop lv f (t ∷ ts) h =
      run-call resolve (loop lv f) (t ∷ ts)
      ∙ ap (λ o. loop_with (run resolve) lv f ts o t) (no_operator lv t h)

  -- An operand read, the level goes on with its loop.
  enter :
      (lv : Level) (f : EvalFn W) (ts rest : List Tok)
      → run resolve (operand lv) ts ≡ ok (f, rest)
      → run resolve (chain lv) ts ≡ run resolve (loop lv f) rest
  unfolding call parse_chain
  enter lv f ts rest h =
      run-call resolve (chain lv) ts
      ∙ ap (λ r. and_then r λ (left, rest'). run resolve (loop lv left) rest') h

  -- What a level reads, the levels above it read.
  climb :
      (j k : ℕ) (f : EvalFn W) (ts rest : List Tok)
      → j < 10
      → j < head_rank rest
      → k ≤ j
      → run resolve (chain (level_at k)) ts ≡ run resolve (loop (level_at k) f) rest
      → run resolve (chain (level_at j)) ts ≡ run resolve (loop (level_at j) f) rest
  climb zero k f ts rest below quiet le h =
      let same : k ≡ 0 = omega (arith, le) in
      subst (λ i. run resolve (chain (level_at i)) ts ≡ run resolve (loop (level_at i) f) rest) same
        h
  climb (suc j) k f ts rest below quiet le h = elim (Bool-cases (k == suc j)) [
    | inl top ↦
        let same : k ≡ suc j = ground (arith, top) in
        subst (λ i. run resolve (chain (level_at i)) ts ≡ run resolve (loop (level_at i) f) rest)
          same h
    | inr lower ↦ enter (level_at (suc j)) f ts rest (
        ap (λ t. run resolve t ts) (operand-level_at j below)
        ∙ climb j k f ts rest (omega (arith, below)) (omega (arith, quiet))
            (ground (arith, lower, le)) h
        ∙ stop (level_at j) f rest (omega (arith, quiet, rank-level_at j (omega (arith, below)))))
  ]

  from_unary :
      (j : ℕ) (f : EvalFn W) (ts rest : List Tok)
      → j < 10
      → j < head_rank rest
      → run resolve unary ts ≡ ok (f, rest)
      → run resolve (chain (level_at j)) ts ≡ run resolve (loop (level_at j) f) rest
  unfolding operand
  from_unary j f ts rest below quiet h =
      climb j 0 f ts rest below quiet (omega arith) (enter mul_level f ts rest h)

  bracketed :
      (f : EvalFn W) (ts rest : List Tok) (close : Tok)
      → 10 < tok_rank close
      → run resolve (chain or_level) ts ≡ run resolve (loop or_level f) (close ∷ rest)
      → run resolve (chain or_level) ts ≡ ok (f, close ∷ rest)
  bracketed f ts rest close high h = h ∙ stop or_level f (close ∷ rest) (omega (arith, high))

  paren :
      (f : EvalFn W) (ts rest : List Tok)
      → run resolve (chain or_level) ts ≡ run resolve (loop or_level f) (tk_rparen ∷ rest)
      → run resolve unary (tk_lparen ∷ ts) ≡ ok (f, rest)
  unfolding call parse_unary parse_primary
  paren f ts rest h =
      run-call resolve unary (tk_lparen ∷ ts)
      ∙ run-call resolve primary (tk_lparen ∷ ts)
      ∙ ap (λ r. and_then r λ (e, rest'). close_paren e rest')
          (bracketed f ts rest tk_rparen (omega arith) h)

  -- How the parser reads a printed expression, from a level and from parseUnary.
  record Parses (e : Syntax) (f : EvalFn W) : Type 0 where
    enters :
        (j : ℕ) (rest : List Tok)
        → j < 10
        → j < head_rank rest
        → precedence e ≤ suc j
        → run resolve (chain (level_at j)) (print e rest) ≡ run resolve (loop (level_at j) f) rest
    reads : (rest : List Tok) → precedence e ≡ 0 → run resolve unary (print e rest) ≡ ok (f, rest)

  atom-Parses :
      (e : Syntax) (f : EvalFn W)
      → ((rest : List Tok) → run resolve unary (print e rest) ≡ ok (f, rest))
      → Parses e f
  atom-Parses e f h = record {
    enters = λ j rest below quiet low. from_unary j f (print e rest) rest below quiet (h rest);
    reads = λ rest low. h rest;
  }

  module _ (e : Syntax) (f : EvalFn W) (h : Parses e f) where
    paren-Parses :
        (rest : List Tok)
        → run resolve unary (tk_lparen ∷ print e (tk_rparen ∷ rest)) ≡ ok (f, rest)
    paren-Parses rest =
        paren f (print e (tk_rparen ∷ rest)) rest
          (h.enters 9 (tk_rparen ∷ rest) (omega arith) (omega arith) (precedence_le e))

    unary_operand :
        (b : Bool) (rest : List Tok)
        → (b ≡ false → precedence e ≡ 0)
        → run resolve unary (in_parens b (print e) rest) ≡ ok (f, rest)
    unary_operand true rest low = paren-Parses rest
    unary_operand false rest low = h.reads rest (low refl)

    chain_operand :
        (b : Bool) (j : ℕ) (rest : List Tok)
        → j < 10
        → j < head_rank rest
        → (b ≡ false → precedence e ≤ suc j)
        → run resolve (chain (level_at j)) (in_parens b (print e) rest)
          ≡ run resolve (loop (level_at j) f) rest
    chain_operand true j rest below quiet low =
        from_unary j f (tk_lparen ∷ print e (tk_rparen ∷ rest)) rest below quiet (paren-Parses rest)
    chain_operand false j rest below quiet low = h.enters j rest below quiet (low refl)

    right_operand :
        (b : Bool) (j : ℕ) (rest : List Tok)
        → j < 10
        → j < head_rank rest
        → (b ≡ false → precedence e ≤ j)
        → run resolve (operand (level_at j)) (in_parens b (print e) rest) ≡ ok (f, rest)
    unfolding operand
    right_operand b zero rest below quiet low = unary_operand b rest (λ c. omega (arith, low c))
    right_operand b (suc j) rest below quiet low =
        ap (λ t. run resolve t (in_parens b (print e) rest)) (operand-level_at j below)
        ∙ chain_operand b j rest (omega (arith, below)) (omega (arith, quiet)) low
        ∙ stop (level_at j) f rest (omega (arith, quiet, rank-level_at j (omega (arith, below))))

  module _ (op : BinOp) (l r : Syntax) (f g : EvalFn W) (hl : Parses l f) (hr : Parses r g) where
    -- At its own level: the left operand, its operator, and the right operand.
    own_level :
        (j : ℕ) (rest : List Tok)
        → level_at j ≡ level op
        → rank (level op) ≡ suc j
        → j < 10
        → j < head_rank rest
        → run resolve (chain (level_at j)) (print (binary op l r) rest)
          ≡ run resolve (loop (level_at j) (apply op f g)) rest
    unfolding print call parse_loop
    own_level j rest own top below quiet =
        let tail : List Tok = in_parens (leb (rank (level op)) (precedence r)) (print r) rest in
        let known : operator (level_at j) (token op) ≡ some (apply {W = W} op) =
          ap (λ lv. operator lv (token op)) own ∙ operator-token op in
        chain_operand l f hl (ltb (rank (level op)) (precedence l)) j (token op ∷ tail) below
          (omega (arith, token-rank op, top)) (λ c. ground (arith, c, top))
        ∙ run-call resolve (loop (level_at j) f) (token op ∷ tail)
        ∙ ap (λ o. loop_with (run resolve) (level_at j) f tail o (token op)) known
        ∙ ap
            (λ x.
              and_then x λ (right, rest'). run resolve (loop (level_at j) (apply op f right)) rest')
            (right_operand r g hr (leb (rank (level op)) (precedence r)) j rest below quiet
              (λ c. ground (arith, c, top)))

    binary-Parses : Parses (binary op l r) (apply op f g)
    binary-Parses =
        let k : ℕ = rank (level op) - 1 in
        let top : rank (level op) ≡ suc k = omega (arith, rank_pos (level op)) in
        record {
          enters = λ j rest below quiet low.
              climb j k (apply op f g) (print (binary op l r) rest) rest below quiet
                (omega (arith, low, top))
                (own_level k rest (level-at_rank (level op)) top (omega (arith, low, top, below))
                  (omega (arith, low, top, quiet)));
          reads = λ rest low. absurd (omega (arith, low, rank_pos (level op)));
        }

  -- A sign before an operand of parseUnary.
  sign-Parses :
      (e : Syntax) (f : EvalFn W)
      → Parses e f
      → Parses (bang e) (logical_not f) × Parses (minus e) (negate f)
  unfolding print call parse_unary
  sign-Parses e f h =
      let operand_read : (rest : List Tok)
          → run resolve unary (in_parens (ltb 0 (precedence e)) (print e) rest) ≡ ok (f, rest) =
        λ rest. unary_operand e f h (ltb 0 (precedence e)) rest (λ c. ground (arith, c)) in
      (
        atom-Parses (bang e) (logical_not f) λ rest.
            run-call resolve unary (print (bang e) rest)
            ∙ ap (λ r. and_then r λ (x, rest'). ok (logical_not x, rest')) (operand_read rest),
        atom-Parses (minus e) (negate f) λ rest.
            run-call resolve unary (print (minus e) rest)
            ∙ ap (λ r. and_then r λ (x, rest'). ok (negate x, rest')) (operand_read rest),
      )

  parsed : {e : Syntax} {f : EvalFn W} → Means resolve e f → Parses e f
  unfolding print call parse_unary parse_primary
  parsed (means_num n) =
      atom-Parses (num n) (number n) λ rest.
        run-call resolve unary (tk_num n ∷ rest) ∙ run-call resolve primary (tk_num n ∷ rest)
  parsed (means_name s {f} h) = atom-Parses (name s) f λ rest.
      run-call resolve unary (tk_ident s ∷ rest)
      ∙ run-call resolve primary (tk_ident s ∷ rest)
      ∙ ap (λ o. resolved rest o) h
  parsed (means_bang {e} {f} h) = (sign-Parses e f (parsed h)).0
  parsed (means_minus {e} {f} h) = (sign-Parses e f (parsed h)).1
  parsed (means_byte_at {e} {f} h) = atom-Parses (byte_at e) (deref f) λ rest.
      run-call resolve unary (print (byte_at e) rest)
      ∙ run-call resolve primary (print (byte_at e) rest)
      ∙ ap (λ r. and_then r λ (x, rest'). close_bracket x rest')
          (bracketed f (print e (tk_rbracket ∷ rest)) rest tk_rbracket (omega arith) (
            (parsed h).enters 9 (tk_rbracket ∷ rest) (omega arith) (omega arith) (precedence_le e)))
  parsed (means_binary op {l} {r} {f} {g} h k) = binary-Parses op l r f g (parsed h) (parsed k)

  -- An expression whose names the resolver knows, printed with the precedences of the package comment and
  -- with parentheses only where these or the associativity to the left ask for them, is parsed as what it
  -- means, whatever its size.
  pub parse_all-print :
      (e : Syntax) (f : EvalFn W) → Means resolve e f → parse_all resolve (print e []) ≡ ok f
  unfolding parse_all run need depth print
  parse_all-print e f h =
      ap (λ r. and_then r λ (x, rest). finish x rest)
        ((parsed h).enters 9 [] (omega arith) (omega arith) (precedence_le e)
          ∙ stop or_level f [] (omega arith))
