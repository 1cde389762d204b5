-- ===== src/Parser.antt =====
-- The parser: cero/syntax/parser.hh and .cc. The children are named for its parts.
pub mod Rules
pub mod Precedences
pub mod State
pub mod Expressions
pub mod Definitions
pub mod Progress
pub mod Enough
pub mod Signatures
pub mod Terminates
pub mod Within
pub mod Returns
mod Tests
