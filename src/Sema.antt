-- ===== src/Sema.antt =====
-- The semantic stage, as far as it is drafted: cero/sema.
pub mod Scope
pub mod SymbolTable
pub mod Visitor
pub mod TypeChecker
pub mod Lookup
pub mod Checked
mod Tests
