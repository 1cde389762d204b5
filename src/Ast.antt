-- ===== src/Ast.antt =====
-- The syntax tree: cero/syntax/ast.hh. The nodes live in an arena that the tree owns and are not
-- changed once the parser has put them, so a pointer to a node is the node here, and an array of
-- nodes is the list of them.
use cero.Common.{Option, substr, ℕ, ◌%◌, ◌^◌, Bool, List, ◌==◌, Bytes}
use cero.Token.{Token}

pub data LiteralKind : Type 0 where
  dec_int hex_int bin_int oct_int float_ char_ string : LiteralKind

pub data UnaryOperator : Type 0 where
  pre_increment pre_decrement post_increment post_decrement : UnaryOperator
  negate bit_not logic_not addr_of deref : UnaryOperator

pub data BinaryOperator : Type 0 where
  add sub mul div rem bit_and bit_or bit_xor shl shr logic_and logic_or : BinaryOperator
  eq neq less less_eq greater greater_eq : BinaryOperator
  assign add_assign sub_assign mul_assign div_assign rem_assign : BinaryOperator
  bit_and_assign bit_or_assign xor_assign shl_assign shr_assign : BinaryOperator
  logic_and_assign logic_or_assign : BinaryOperator

-- An expression node begins with its offset. `AstExpressions` is a node list of expressions.
mutual
  pub data AstExpression : Type 0 where
    ident_expr : ℕ → ℕ → AstExpression
    literal_expr : ℕ → LiteralKind → ℕ → AstExpression
    block_expr : ℕ → AstExpressions → AstExpression
    return_expr : ℕ → AstExpressions → AstExpression
    unary_expr : ℕ → UnaryOperator → AstExpression → AstExpression
    binary_expr : ℕ → BinaryOperator → AstExpression → AstExpression → AstExpression
    call_expr : ℕ → AstExpression → AstExpressions → AstExpression

  pub data AstExpressions : Type 0 where
    none : AstExpressions
    node : AstExpression → AstExpressions → AstExpressions

unfoldable pub token_offset : AstExpression → ℕ
token_offset (ident_expr offset _) = offset
token_offset (literal_expr offset _ _) = offset
token_offset (block_expr offset _) = offset
token_offset (return_expr offset _) = offset
token_offset (unary_expr offset _ _) = offset
token_offset (binary_expr offset _ _ _) = offset
token_offset (call_expr offset _ _) = offset

-- The constructor of a node keeps 24 bits of the offset.
unfoldable pub node_offset : ℕ → ℕ
node_offset offset = offset % 2 ^ 24

pub record AstName : Type 0 where
  pub offset : ℕ
  pub length : ℕ

-- `AstName::from`, whose token is an identifier.
unfoldable pub name_from : Token → AstName
name_from t = record { offset = t.offset; length = t.variable_length }

abbrev pub empty_name : AstName
empty_name = record { offset = 0; length = 0 }

unfoldable pub is_empty : AstName → Bool
is_empty n = n.length == 0

unfoldable pub get_name : AstName → Bytes → Option Bytes
unfolding substr
get_name n source_text = substr n.offset n.length source_text

pub data AccessModifier : Type 0 where
  no_modifier private_ public_ : AccessModifier

pub record AstFunctionParameter : Type 0 where
  pub token_offset : ℕ
  pub type : AstExpression
  pub name : AstName

pub record AstFunctionOutput : Type 0 where
  pub token_offset : ℕ
  pub type : AstExpression
  pub name : AstName

pub record AstFunctionDefinition : Type 0 where
  pub token_offset : ℕ
  pub access_modifier : AccessModifier
  pub name : AstName
  pub parameters : List AstFunctionParameter
  pub outputs : List AstFunctionOutput
  pub statements : AstExpressions

-- `AstRoot`: functions are the only definitions that the parser makes.
pub record AstRoot : Type 0 where
  pub definitions : List AstFunctionDefinition
