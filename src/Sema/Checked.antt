-- ===== src/Sema/Checked.antt =====
-- What the type checker comes to (cero/sema/type_checker.cc).
use cero.Common.{
  substr_in, ℕ, ◌≤◌, none, some, List, [], ◌∷◌, ◌++◌, append_assoc, append-nil, map, Bytes, length,
  All, ◌≡◌, refl,
}
use cero.Ast.{
  AstName, AstRoot, AstFunctionDefinition, AstExpression, AstExpressions, none, node, ident_expr,
  literal_expr, block_expr, return_expr, unary_expr, binary_expr, call_expr,
}
use cero.Sema.Scope.{Scope, SymbolKind, parameter, output}
use cero.Sema.SymbolTable
use cero.Sema.SymbolTable.{SymbolTable, push_scope, pop_scope}
use cero.Sema.TypeChecker.{
  TirNode, TirRoot, TypeChecker, M, make_function, put, visit_all, declare,
  visit_function_parameter, visit_function_output, visit_ident_expr, visitor, visit_statements,
  visit_function_definition, run, run_type_checker,
}
use cero.Sema.Visitor.{visit, expression}
use cero.Source.{SourceView}

-- A name of a statement that is an identifier begins in the text, or where it ends.
abbrev pub ExpressionInText : ℕ → AstExpression → Type 0
ExpressionInText size (ident_expr offset _) = offset ≤ size
ExpressionInText size _ = Unit

abbrev pub StatementsInText : ℕ → AstExpressions → Type 0
StatementsInText size none = Unit
StatementsInText size (node e es) = ExpressionInText size e × StatementsInText size es

abbrev pub InText : ℕ → AstFunctionDefinition → Type 0
InText size d =
    All (λ p. p.name.offset ≤ size) d.parameters
    × All (λ o. o.name.offset ≤ size) d.outputs
    × StatementsInText size d.statements

module _ (std_hash : Bytes → ℕ) (text : Bytes) where
  -- The state in a scope.
  abbrev inside : TirRoot → Scope → SymbolTable → TypeChecker
  inside tir s t = record { tir = tir; sym_table = s ∷ t }

  -- A method that leaves the state in a scope as it is.
  Keeps : M → TirRoot → Scope → SymbolTable → Type 0
  Keeps m tir s t = m (inside tir s t) ≡ some (inside tir s t)

  declare_lem :
      (n : AstName) (kind : SymbolKind) (tir : TirRoot) (s : Scope) (t : SymbolTable)
      → n.offset ≤ length text
      → Keeps (declare std_hash text n kind) tir s t
  unfolding declare SymbolTable.put Keeps
  declare_lem n kind tir s t h = rw (substr_in n.offset n.length text h) refl

  visit_all_lem :
      {A : Type 0} (f : A → M) (P : A → Type 0) (xs : List A) (tir : TirRoot) (s : Scope)
      (t : SymbolTable)
      → ((x : A) → P x → Keeps (f x) tir s t)
      → All P xs
      → Keeps (visit_all f xs) tir s t
  unfolding visit_all Keeps
  visit_all_lem f P [] tir s t k h = refl
  visit_all_lem f P (x ∷ xs) tir s t k h = rw (k x h.0) (visit_all_lem f P xs tir s t k h.1)

  visit_expression_lem :
      (e : AstExpression) (tir : TirRoot) (s : Scope) (t : SymbolTable)
      → ExpressionInText (length text) e
      → Keeps (visit (visitor std_hash text λ d u. none) (expression e)) tir s t
  unfolding visit visitor visit_ident_expr Keeps
  visit_expression_lem (ident_expr offset size) tir s t h = rw (substr_in offset size text h) refl
  visit_expression_lem (literal_expr offset kind size) tir s t h = refl
  visit_expression_lem (block_expr offset statements) tir s t h = refl
  visit_expression_lem (return_expr offset values) tir s t h = refl
  visit_expression_lem (unary_expr offset op operand) tir s t h = refl
  visit_expression_lem (binary_expr offset op left right) tir s t h = refl
  visit_expression_lem (call_expr offset callee arguments) tir s t h = refl

  visit_statements_lem :
      (es : AstExpressions) (tir : TirRoot) (s : Scope) (t : SymbolTable)
      → StatementsInText (length text) es
      → Keeps (visit_statements std_hash text es) tir s t
  unfolding visit_statements Keeps
  visit_statements_lem none tir s t h = refl
  visit_statements_lem (node e es) tir s t h =
      rw (visit_expression_lem e tir s t h.0) (visit_statements_lem es tir s t h.1)

  visit_function_definition_lem :
      (d : AstFunctionDefinition) (tir : TirRoot) (t : SymbolTable)
      → InText (length text) d
      → visit_function_definition std_hash text d (record { tir = tir; sym_table = t })
        ≡ some (record { tir = put (make_function d.token_offset) tir; sym_table = t })
  unfolding visit_function_definition visit_function_parameter visit_function_output push_scope
      pop_scope Keeps
  visit_function_definition_lem d tir t h =
      rw
        (
          visit_all_lem (visit_function_parameter std_hash text) (λ p. p.name.offset ≤ length text)
              d.parameters tir [] t (λ p k. declare_lem p.name parameter tir [] t k) h.0,
          visit_all_lem (visit_function_output std_hash text) (λ o. o.name.offset ≤ length text)
              d.outputs tir [] t (λ o k. declare_lem o.name output tir [] t k) h.1,
          visit_statements_lem d.statements tir [] t h.2,
        )
        refl

  run_lem :
      (ds : List AstFunctionDefinition) (before : List TirNode) (t : SymbolTable)
      → All (InText (length text)) ds
      → run std_hash text
          (record { definitions = ds })
          (record { tir = record { symbols = before }; sym_table = t })
        ≡ some (record {
          tir = record { symbols = before ++ map (λ d. make_function d.token_offset) ds };
          sym_table = t;
        })
  unfolding run visit visitor visit_all put
  run_lem [] before t h = rw (append-nil before) refl
  run_lem (d ∷ ds) before t h =
      rw
        (
          visit_function_definition_lem d (record { symbols = before }) t h.0,
          run_lem ds (before ++ (make_function d.token_offset ∷ [])) t h.1,
          append_assoc before (make_function d.token_offset ∷ [])
              (map (λ d. make_function d.token_offset) ds),
        )
        refl

-- For a tree whose parameters, outputs and statements that are identifiers name places of the text,
-- the type checker fails no assertion and throws no exception, its tree has one function for each
-- definition, in their order and with the low 24 bits of their offsets, and every scope is closed.
pub run_type_checker_lem :
    (std_hash : Bytes → ℕ) (source : SourceView) (root : AstRoot)
    → All (InText (length source.text)) root.definitions
    → run_type_checker std_hash source root
      ≡ some (record {
        tir = record { symbols = map (λ d. make_function d.token_offset) root.definitions };
        sym_table = [];
      })
unfolding run_type_checker
run_type_checker_lem std_hash source root h = run_lem std_hash source.text root.definitions [] [] h
