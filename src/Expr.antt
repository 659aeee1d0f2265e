-- ===== src/Expr.antt =====
-- expr/expr.go: conditions and watch expressions over the CPU's state.
pub mod Result
pub mod Value
pub mod Token
pub mod Lex
pub mod Parse
pub mod Syntax
