-- ===== src/Token.antt =====
-- Tokens: cero/syntax/token.hh and cero/syntax/token.cc, and the token array of
-- cero/syntax/token_list.hh and .cc, which is a list here.
mod Kind
mod Text
pub mod Cursor
pub mod Skip
mod Tests
unfoldable pub use Kind.*
unfoldable pub use Text.*
