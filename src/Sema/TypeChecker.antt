-- ===== src/Sema/TypeChecker.antt =====
-- The type checker: cero/sema/type_checker.cc, with the nodes of cero/sema/tir_tree.hh. As in the
-- syntax tree, a node stands for the pointer to it.
use cero.Common.{substr, ℕ, ◌%◌, ◌^◌, Option, none, some, List, [], ◌∷◌, ◌++◌, Bytes}
use cero.Ast.{
  AstName, AstRoot, AstFunctionDefinition, AstFunctionParameter, AstFunctionOutput, AstExpressions,
  none, node,
}
use cero.Sema.Scope.{SymbolKind, parameter, output}
use cero.Sema.SymbolTable
use cero.Sema.SymbolTable.{SymbolTable, push_scope, pop_scope}
use cero.Sema.Visitor.{AstVisitor, visit, function_def, expression}
use cero.Source.{SourceView}

pub data TirNodeKind : Type 0 where
  function : TirNodeKind

pub record TirNode : Type 0 where
  pub node_kind : TirNodeKind
  pub token_offset : ℕ

-- `TirFunction::TirFunction`.
unfoldable pub make_function : ℕ → TirNode
make_function offset = record { node_kind = function; token_offset = offset % 2 ^ 24 }

pub record TirRoot : Type 0 where
  pub symbols : List TirNode

-- The members that it changes.
pub record TypeChecker : Type 0 where
  pub tir : TirRoot
  pub sym_table : SymbolTable

-- `none` is a failed assertion, or the exception of `substr`.
abbrev pub M : Type 0
M = TypeChecker → Option TypeChecker

infixl 1 ◌>>=◌
abbrev ◌>>=◌ {ℓ κ} : {A : Type ℓ} {B : Type κ} → Option A → (A → Option B) → Option B
none >>= f = none
some a >>= f = f a

unfoldable pub visit_all {ℓ} : {A : Type ℓ} → (A → M) → List A → M
visit_all f [] s = some s
visit_all f (x ∷ xs) s = do t ← f x s; visit_all f xs t

unfoldable pub put : TirNode → TirRoot → TirRoot
put fn root = record root { symbols = root.symbols ++ (fn ∷ []) }

module _ (std_hash : Bytes → ℕ) (source_text : Bytes) where
  unfoldable pub declare : AstName → SymbolKind → M
  unfolding substr SymbolTable.put
  declare n kind s = do
    name ← substr n.offset n.length source_text
    t ← SymbolTable.put name kind s.sym_table
    some (record s { sym_table = t })

  unfoldable pub visit_function_parameter : AstFunctionParameter → M
  unfolding declare
  visit_function_parameter param s = declare param.name parameter s

  unfoldable pub visit_function_output : AstFunctionOutput → M
  unfolding declare
  visit_function_output out s = declare out.name output s

  -- The symbol that is found is not used.
  unfoldable pub visit_ident_expr : ℕ → ℕ → M
  unfolding substr SymbolTable.find
  visit_ident_expr offset size s = do
    name ← substr offset size source_text
    let symbol = SymbolTable.find std_hash name s.sym_table
    some s

  -- The methods of the visitor, given the one for functions.
  unfoldable pub visitor : (AstFunctionDefinition → M) → AstVisitor M
  unfolding visit_function_parameter visit_function_output visit_ident_expr
  visitor visit_function_definition = record {
    visit_function_definition = visit_function_definition;
    visit_function_parameter = visit_function_parameter;
    visit_function_output = visit_function_output;
    visit_ident_expr = visit_ident_expr;
    visit_literal_expr = λ offset kind size s. some s;
    visit_block_expr = λ offset statements s. some s;
    visit_return_expr = λ offset values s. some s;
    visit_unary_expr = λ offset op operand s. some s;
    visit_binary_expr = λ offset op left right s. some s;
    visit_call_expr = λ offset callee arguments s. some s;
  }

  -- A statement is never a function.
  unfoldable pub visit_statements : AstExpressions → M
  unfolding visit visitor
  visit_statements none s = some s
  visit_statements (node e es) s = do
    t ← visit (visitor λ d u. none) (expression e) s
    visit_statements es t

  unfoldable pub visit_function_definition : AstFunctionDefinition → M
  unfolding make_function push_scope pop_scope put visit_all visit_function_parameter
      visit_function_output visit_statements
  visit_function_definition fn_def s = do
    let fn = make_function fn_def.token_offset
    a ←
        visit_all visit_function_parameter fn_def.parameters
          (record s { sym_table = push_scope s.sym_table })
    b ← visit_all visit_function_output fn_def.outputs a
    c ← visit_statements fn_def.statements b
    t ← pop_scope c.sym_table
    some (record { tir = put fn c.tir; sym_table = t })

  unfoldable pub run : AstRoot → M
  unfolding visit visitor visit_function_definition visit_all
  run root s =
      visit_all (λ d. visit (visitor visit_function_definition) (function_def d)) root.definitions s

-- `run_type_checker`: the tree, and the checker as it is left. The reporter is not called.
unfoldable pub run_type_checker : (Bytes → ℕ) → SourceView → AstRoot → Option TypeChecker
unfolding run
run_type_checker std_hash source root =
    run std_hash source.text root (record { tir = record { symbols = [] }; sym_table = [] })
