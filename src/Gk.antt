-- ===== src/Gk.antt =====
-- kernel/gk: the scripting language.
pub mod Token
pub mod Lexer
pub mod Ast
pub mod Expr
pub mod Parser
pub mod Value
pub mod Store
pub mod Eval
pub mod Interp
