-- ===== src/Build.antt =====
-- The build driver: cero/compile/build.cc. The semantic analyzer that the driver ends with has an
-- empty body.
pub mod Tokens
pub mod Complete
pub mod Driver
pub mod Closes
pub mod Reports
mod Tests
use cero.Common.{
  ℕ, Bool, true, false, Option, none, some, List, [], ◌∷◌, ◌++◌, Bytes, String, if◌then◌else◌,
}
use cero.Ast.{AstRoot}
use cero.FileView.System.{ErrorCondition, Answer, gives, failed}
use cero.Lexer.Run.{run_lexer}
use cero.Lexer.Comments.{no_flags}
use cero.Parser.Definitions.{run_parser}
use cero.Parser.State.{Settings, Outcome, ok, thrown, out_of_fuel}
use cero.Report.{Report, CodeLocation, MessageArg, text, file_not_found, could_not_open_file}
use cero.Source.{SourceView}

-- The reports of the driver, in order; `none` is an exception or an abort of the parser, or no fuel
-- left.
unfoldable pub reports_of : List Report → Option (Outcome AstRoot) → Option (List Report)
reports_of before (some (ok root p)) = some (before ++ p.reports)
reports_of before _ = none

unfoldable pub build_locked :
    ℕ → (Bytes → List MessageArg → Bytes) → SourceView → Option (List Report)
unfolding reports_of run_parser
build_locked tab_size vformat source_view =
    let lexed =
      run_lexer (record { source = source_view; flags = no_flags; tab_size = tab_size }) in
    reports_of lexed.reports (
      run_parser (record { source = source_view; tab_size = tab_size; vformat = vformat })
        lexed.tokens)

unfoldable pub lock_failed : String → ErrorCondition → Report
lock_failed path error =
    let location : CodeLocation = record { path = path; line = 0; column = 0 } in
    if error.is_no_such_file
    then record { location = location; message = file_not_found; args = [] }
    else record {
      location = location;
      message = could_not_open_file;
      args = text error.message ∷ [];
    }

unfoldable pub build_source :
    ℕ → (Bytes → List MessageArg → Bytes) → String → Answer SourceView → Option (List Report)
unfolding build_locked lock_failed
build_source tab_size vformat path (gives source_view) = build_locked tab_size vformat source_view
build_source tab_size vformat path (failed error) = some (lock_failed path error ∷ [])
