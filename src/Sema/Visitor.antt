-- ===== src/Sema/Visitor.antt =====
-- The dispatch on the kind of a node: cero/syntax/ast_visitor.hh.
use cero.Common.{ℕ}
use cero.Ast.{
  AstFunctionDefinition, AstFunctionParameter, AstFunctionOutput, AstExpression, AstExpressions,
  LiteralKind, UnaryOperator, BinaryOperator, ident_expr, literal_expr, block_expr, return_expr,
  unary_expr, binary_expr, call_expr,
}

-- A node of any kind, as `AstNode` points to it.
pub data AstNode : Type 0 where
  function_def : AstFunctionDefinition → AstNode
  function_parameter : AstFunctionParameter → AstNode
  function_output : AstFunctionOutput → AstNode
  expression : AstExpression → AstNode

pub record AstVisitor {ℓ} (T : Type ℓ) : Type ℓ where
  pub visit_function_definition : AstFunctionDefinition → T
  pub visit_function_parameter : AstFunctionParameter → T
  pub visit_function_output : AstFunctionOutput → T
  pub visit_ident_expr : ℕ → ℕ → T
  pub visit_literal_expr : ℕ → LiteralKind → ℕ → T
  pub visit_block_expr : ℕ → AstExpressions → T
  pub visit_return_expr : ℕ → AstExpressions → T
  pub visit_unary_expr : ℕ → UnaryOperator → AstExpression → T
  pub visit_binary_expr : ℕ → BinaryOperator → AstExpression → AstExpression → T
  pub visit_call_expr : ℕ → AstExpression → AstExpressions → T

unfoldable pub visit {ℓ} : {T : Type ℓ} → AstVisitor T → AstNode → T
visit v (function_def d) = v.visit_function_definition d
visit v (function_parameter p) = v.visit_function_parameter p
visit v (function_output o) = v.visit_function_output o
visit v (expression (ident_expr offset length)) = v.visit_ident_expr offset length
visit v (expression (literal_expr offset kind length)) = v.visit_literal_expr offset kind length
visit v (expression (block_expr offset statements)) = v.visit_block_expr offset statements
visit v (expression (return_expr offset values)) = v.visit_return_expr offset values
visit v (expression (unary_expr offset op operand)) = v.visit_unary_expr offset op operand
visit v (expression (binary_expr offset op left right)) = v.visit_binary_expr offset op left right
visit v (expression (call_expr offset callee arguments)) = v.visit_call_expr offset callee arguments
