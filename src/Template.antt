-- ===== src/Template.antt =====
-- ui-react/src/lib/templateExpression.ts: the language of template expressions. `Lexer` reads
-- tokens off a text, `Parser` an expression off tokens, `Eval` evaluates it with the functions of
-- `Helpers`, and `Cache` keeps the parsed expressions.
pub mod Syntax
pub mod Lexer
pub mod Parser
pub mod Helpers
pub mod Eval
pub mod Cache
mod Tests
