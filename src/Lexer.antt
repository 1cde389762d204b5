-- ===== src/Lexer.antt =====
-- The lexer: cero/syntax/lexer.hh and .cc. The states and the handlers are in the children named
-- for them; this module passes them on.
pub mod State
pub mod Words
pub mod Utf8
pub mod Unclosed
pub mod Numbers
pub mod Operators
pub mod Comments
pub mod Quotes
pub mod Run
pub mod Lookup
pub mod Tiles
pub mod Reading
pub mod Lexed
pub mod Sound
mod Tests
