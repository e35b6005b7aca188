-- ===== src/Expr.antt =====
-- simulator/src/monitor/sdb/expr.c: the debugger's expressions. `Token` has the data, `Lexer`
-- make_token(), `Eval` eval() and what it calls. `Grammar` is the reference syntax and its meaning.
-- The other modules are about eval(): `Slice`, `Scan`, `Parens` and `Position` about the passes over the
-- tokens, `Value` about the result and `Total` about the recursion.
pub mod Token
pub mod Lexer
pub mod Eval
pub mod Grammar
mod Slice
mod Scan
mod Parens
mod Position
pub mod Value
pub mod Total
mod Tests
