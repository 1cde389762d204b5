-- ===== src/Sema/Tests.antt =====
-- Runs of the semantic stage (cero/sema).
use cero.Ast.{
  AstFunctionDefinition, AstRoot, ident_expr, literal_expr, dec_int, no_modifier, none, node,
}
use cero.Common.{ℕ, [], ◌∷◌, Bytes, length, map, none, some, codes, ◌≡◌, refl, arith}
use cero.Sema.Checked.{run_type_checker_lem}
use cero.Sema.Lookup.{extended, find-put, Resolves, find-Resolves, new, pushed, declared, find-Made}
use cero.Sema.Scope
use cero.Sema.Scope.{Scope, Symbol, parameter, output, symbol_name, equals}
use cero.Sema.SymbolTable
use cero.Sema.SymbolTable.{SymbolTable, push_scope}
use cero.Sema.TypeChecker.{make_function, run_type_checker}
use cero.Source.{SourceView}

-- A hash function under which every two names of one length collide.
abbrev size_hash : Bytes → ℕ
size_hash name = length name

abbrev one_symbol : Scope
one_symbol =
    record {
      key = record { name = codes "ab"; hash = 2 };
      symbol = record { kind = parameter; type = 0 };
    }
    ∷ []

find-put_example :
    Scope.find
      (symbol_name size_hash (codes "cd"))
      (Scope.put size_hash (codes "cd") output one_symbol)
    ≡ extended
        (Scope.find (symbol_name size_hash (codes "cd")) one_symbol)
        (equals (codes "cd") (codes "cd"))
        output
find-put_example = find-put size_hash (codes "cd") (codes "cd") output one_symbol

found_behind :
    SymbolTable.find size_hash (codes "ab") ([] ∷ one_symbol ∷ [])
    ≡ some (record { kind = parameter; type = 0 })
unfolding SymbolTable.find
found_behind = refl

find-Resolves_example :
    Resolves
      (symbol_name size_hash (codes "ab"))
      ([] ∷ one_symbol ∷ [])
      (SymbolTable.find size_hash (codes "ab") ([] ∷ one_symbol ∷ []))
find-Resolves_example = find-Resolves size_hash (codes "ab") ([] ∷ one_symbol ∷ [])

put_in_scope : SymbolTable.put (codes "ab") parameter (push_scope []) ≡ some (push_scope [])
unfolding push_scope SymbolTable.put
put_in_scope = refl

find-Made_example : SymbolTable.find size_hash (codes "ab") (push_scope []) ≡ none
find-Made_example =
    find-Made size_hash (codes "ab") (push_scope [])
      (declared (codes "ab") parameter (pushed new) put_in_scope)

-- `f(T a) { a 1 }`, and a definition whose offset does not fit.
abbrev source : SourceView
source = record { text = codes "f(T a) { a 1 }"; path = "f.ce" }

abbrev defined : ℕ → AstFunctionDefinition
defined offset = record {
  token_offset = offset;
  access_modifier = no_modifier;
  name = record { offset = 0; length = 1 };
  parameters =
      record { token_offset = 2; type = ident_expr 2 1; name = record { offset = 4; length = 1 } }
      ∷ [];
  outputs = [];
  statements = node (ident_expr 9 1) (node (literal_expr 11 dec_int 1) none);
}

abbrev tree : AstRoot
tree = record { definitions = defined 0 ∷ defined 16777217 ∷ [] }

run_type_checker_lem_example :
    run_type_checker size_hash source tree
    ≡ some (record {
      tir = record { symbols = map (λ d. make_function d.token_offset) tree.definitions };
      sym_table = [];
    })
run_type_checker_lem_example = run_type_checker_lem size_hash source tree (
  ((omega arith, tt), tt, (omega arith, (tt, tt))),
  (((omega arith, tt), tt, (omega arith, (tt, tt))), tt),
)
