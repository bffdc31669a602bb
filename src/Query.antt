-- ===== src/Query.antt =====
-- src/query: the filter language, and the pruning of segments by zone maps.
pub mod Expr
pub mod Tokenizer
pub mod Parser
pub mod Predicates
pub mod Evaluate
mod Tests
