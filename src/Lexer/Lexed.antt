-- ===== src/Lexer/Lexed.antt =====
-- Every handler of the lexer keeps what `Lexed` says: see the children, named for the handlers.
pub mod Rules
pub mod Operators
pub mod Words
pub mod Keywords
pub mod Identifiers
pub mod Comments
pub mod Quotes
pub mod Digits
pub mod Numbers
pub mod Rounds
