-- ===== src/Expr.antt =====
-- The expression interpreter of pipeline/cocotb/spec_sim.py: values and tokens here; the lexer,
-- the recursive-descent interpreter and its specification in the modules below.
pub mod Value
pub mod Token
pub mod Interp
pub mod Total
pub mod Steps
pub mod Grammar
pub mod Lexer
