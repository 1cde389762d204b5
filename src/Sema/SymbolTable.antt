-- ===== src/Sema/SymbolTable.antt =====
-- `SymbolTable` of cero/sema/symbol_table.hh and .cc: a stack of scopes, the innermost first. `none`
-- is a failed assertion.
use cero.Common.{ℕ, Option, none, some, List, [], ◌∷◌, Bytes}
use cero.Sema.Scope
use cero.Sema.Scope.{Scope, Symbol, SymbolName, SymbolKind, symbol_name}

abbrev pub SymbolTable : Type 0
SymbolTable = List Scope

unfoldable pub push_scope : SymbolTable → SymbolTable
push_scope t = [] ∷ t

unfoldable pub pop_scope : SymbolTable → Option SymbolTable
pop_scope [] = none
pop_scope (s ∷ t) = some t

-- Asserts that there is a scope, and puts nothing.
unfoldable pub put : Bytes → SymbolKind → SymbolTable → Option SymbolTable
put identifier kind [] = none
put identifier kind (s ∷ t) = some (s ∷ t)

unfoldable pub find_key : SymbolName → SymbolTable → Option Symbol
unfolding Scope.find
find_key key [] = none
find_key key (s ∷ t) =
    let rest = find_key key t in elim (Scope.find key s) [ some symbol ↦ some symbol | none ↦ rest ]

unfoldable pub find : (Bytes → ℕ) → Bytes → SymbolTable → Option Symbol
unfolding find_key symbol_name
find std_hash identifier t = find_key (symbol_name std_hash identifier) t
