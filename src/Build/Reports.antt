-- ===== src/Build/Reports.antt =====
-- What the stages of a build hand to one another, and what the driver reports
-- (cero/compile/build.cc).
use cero.Common.{
  ℕ, none, some, List, [], ◌∷◌, ◌++◌, All, All-imp, All-append, Bytes, String, length, map, if_rule,
  ◌≡◌, refl, ap,
}
use cero.Ast.{
  AstRoot, AstExpression, AstExpressions, AstFunctionDefinition, ident_expr, literal_expr,
  block_expr, return_expr, unary_expr, binary_expr, call_expr, none, node,
}
use cero.Build.Tokens.{source-Parsed}
use cero.Build.{build_source, build_locked, reports_of, lock_failed}
use cero.FileView.System.{ErrorCondition, Answer, gives, failed}
use cero.Lexer.Comments.{no_flags}
use cero.Lexer.Lexed.Keywords.{IsByte}
use cero.Lexer.Run.{run_lexer}
use cero.Lexer.Sound.{run_lexer-IsValidReport}
use cero.Lexer.State as LexerState
use cero.Lexer.Tiles.{IsValidReport}
use cero.Parser.Definitions.{run_parser}
use cero.Parser.State.{Parser, Settings, ok}
use cero.Parser.Within.Signatures.{DefinitionWithin}
use cero.Parser.Within.{NodeWithin, NodesWithin}
use cero.Report.{Report, MessageArg, valid_for_message}
use cero.Sema.Checked.{InText, ExpressionInText, StatementsInText, run_type_checker_lem}
use cero.Sema.TypeChecker.{make_function, run_type_checker}
use cero.Source.{SourceView}

NodeWithin→ExpressionInText :
    (settings : Settings) (e : AstExpression)
    → NodeWithin settings e
    → ExpressionInText (length settings.source.text) e
NodeWithin→ExpressionInText settings (ident_expr offset _) h = h
NodeWithin→ExpressionInText settings (literal_expr _ _ _) h = tt
NodeWithin→ExpressionInText settings (block_expr _ _) h = tt
NodeWithin→ExpressionInText settings (return_expr _ _) h = tt
NodeWithin→ExpressionInText settings (unary_expr _ _ _) h = tt
NodeWithin→ExpressionInText settings (binary_expr _ _ _ _) h = tt
NodeWithin→ExpressionInText settings (call_expr _ _ _) h = tt

module _ (tab_size : ℕ) (vformat : Bytes → List MessageArg → Bytes) where
  lock_failed-IsValidReport :
      (path : String) (error : ErrorCondition) → IsValidReport (lock_failed path error)
  unfolding lock_failed valid_for_message
  lock_failed-IsValidReport path error =
      if_rule IsValidReport error.is_no_such_file (λ _. refl) (λ _. refl)

  -- The text of a view is one of bytes.
  abbrev pub HasBytes : Answer SourceView → Type 0
  HasBytes (gives view) = All IsByte view.text
  HasBytes (failed error) = Unit

  -- Whatever came of locking the source, and whatever bytes it has, the driver returns, and each of
  -- its reports, the lexer's, the parser's and its own, has as many arguments as its message has
  -- places: the assertion of `Reporter::report` never fails.
  pub build_source-IsValidReport :
      (path : String) (lock_result : Answer SourceView)
      → HasBytes lock_result
      → (reports : List Report) × (build_source tab_size vformat path lock_result ≡ some reports)
        × All IsValidReport reports
  unfolding build_source build_locked reports_of
  build_source-IsValidReport path (failed error) h =
      (lock_failed path error ∷ [], refl, (lock_failed-IsValidReport path error, tt))
  build_source-IsValidReport path (gives view) h =
      let settings : LexerState.Settings = record {
        source = view;
        flags = no_flags;
        tab_size = tab_size;
      } in
      let (_, p, e, r) = source-Parsed tab_size vformat view h in
      (
        (run_lexer settings).reports ++ p.reports,
        ap (reports_of (run_lexer settings).reports) e,
        All-append IsValidReport (run_lexer settings).reports p.reports
            (run_lexer-IsValidReport settings h) r.valid,
      )

  NodesWithin→StatementsInText :
      (settings : Settings) (es : AstExpressions)
      → NodesWithin settings es
      → StatementsInText (length settings.source.text) es
  NodesWithin→StatementsInText settings none h = tt
  NodesWithin→StatementsInText settings (node e es) h =
      (NodeWithin→ExpressionInText settings e h.0, NodesWithin→StatementsInText settings es h.1)

  DefinitionWithin→InText :
      (settings : Settings) (d : AstFunctionDefinition)
      → DefinitionWithin settings d
      → InText (length settings.source.text) d
  DefinitionWithin→InText settings d h = (
    All-imp _ _ d.parameters (λ p k. k.0) h.parameters,
    All-imp _ _ d.outputs (λ o k. k.0) h.outputs,
    NodesWithin→StatementsInText settings d.statements h.statements,
  )

  -- The tree that the lexer and the parser make of any bytes is one that the type checker gets
  -- through: it reads no name behind the end of the text, closes each scope that it opened, and
  -- makes one function for each definition, in their order.
  pub type_checker_returns :
      (std_hash : Bytes → ℕ) (view : SourceView)
      → All IsByte view.text
      → (root : AstRoot) × (p : Parser) × (run_parser
            (record { source = view; tab_size = tab_size; vformat = vformat })
            (run_lexer (record { source = view; flags = no_flags; tab_size = tab_size })).tokens
          ≡ some (ok root p))
        × (run_type_checker std_hash view root
            ≡ some (record {
              tir = record { symbols = map (λ d. make_function d.token_offset) root.definitions };
              sym_table = [];
            }))
  type_checker_returns std_hash view bytes =
      let (root, p, e, r) = source-Parsed tab_size vformat view bytes in
      let settings : Settings = record { source = view; tab_size = tab_size; vformat = vformat } in
      (
        root,
        p,
        e,
        run_type_checker_lem std_hash view root
            (All-imp _ _ root.definitions (DefinitionWithin→InText settings) r.within),
      )
