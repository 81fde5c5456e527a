-- ===== src/Query.antt =====
-- crates/nova-query: expressions, their evaluation and the choice of a plan.
pub mod Ast
pub mod Token
pub mod Lexer
pub mod Kinds
pub mod Parser
pub mod Evaluator
pub mod Planner
