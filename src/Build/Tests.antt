-- ===== src/Build/Tests.antt =====
-- Runs of the build driver (cero/compile/build.cc).
use cero.Common.{List, [], ◌∷◌, ◌++◌, some, codes, true, false, All, map, arith, ◌≡◌, refl, Bytes}
use cero.Build.{build_source}
use cero.Build.Complete.{build_source_returns}
use cero.Build.Closes.{build_returns}
use cero.Build.Driver.{build}
use cero.Ast.{AstRoot}
use cero.Build.Reports.{build_source-IsValidReport, type_checker_returns}
use cero.Common.{length}
use cero.Lexer.Tiles.{IsValidReport}
use cero.Parser.Definitions.{run_parser}
use cero.Parser.State.{Parser, ok}
use cero.Sema.TypeChecker.{make_function, run_type_checker}
use cero.FileView.Platform.{Platform}
use cero.FileView.Native.{platform}
use cero.FileView.System.{ErrorCondition, World, SameResources, gives, failed, handle}
use cero.Source.Lock.{from_file}
use cero.Lexer.Comments.{no_flags}
use cero.Lexer.Run.{run_lexer}
use cero.Report.{Report}
use cero.Source.{SourceView}

-- A function whose block is not closed, and a character that begins no token.
abbrev faulty : SourceView
faulty = record { text = codes "f() { return $ "; path = "test" }

build_source_returns_example :
    let lexed = run_lexer (record { source = faulty; flags = no_flags; tab_size = 4 }) in
    (root : AstRoot) × (p : Parser) × (run_parser
        (record { source = faulty; tab_size = 4; vformat = λ format _. format })
        lexed.tokens
      ≡ some (ok root p))
    × (build_source 4 (λ format _. format) "test" (gives faulty)
        ≡ some (lexed.reports ++ p.reports))
build_source_returns_example =
    build_source_returns 4 (λ format _. format) "test" faulty (omega arith)

abbrev no_such_file : ErrorCondition
no_such_file = record { is_no_such_file = true; message = codes "no such file" }

no_text : (text : Bytes) → ¬ ((from_file "f.ce").text ≡ some text)
unfolding from_file
no_text text e = cc

-- A system that takes everything back.
abbrev system : Platform
system = platform false (λ _. true)

-- The file is opened and measured, and cannot be mapped, while another file is open.
build_returns_example :
    (reports : List Report) × (v : World) × (build system
        (λ _ _. [])
        4
        (λ format _. format)
        (from_file "f.ce")
        (record { open_file = gives 5; fstat = gives 6; mmap = failed no_such_file })
        (handle 1 ∷ [])
      ≡ some (reports, v))
    × SameResources v (handle 1 ∷ [])
build_returns_example =
    build_returns false (λ _. true) (λ _ _. []) 4 (λ format _. format) (from_file "f.ce")
      (λ _. refl) (λ _ _. tt) (λ text e. absurd (no_text text e))
      (record { open_file = gives 5; fstat = gives 6; mmap = failed no_such_file }) (handle 1 ∷ [])

build_source-IsValidReport_example :
    (reports : List Report) × (build_source 4 (λ format _. format) "test" (gives faulty)
      ≡ some reports)
    × All IsValidReport reports
build_source-IsValidReport_example =
    build_source-IsValidReport 4 (λ format _. format) "test" (gives faulty) (omega arith)

type_checker_returns_example :
    (root : AstRoot) × (p : Parser) × (run_parser
        (record { source = faulty; tab_size = 4; vformat = λ format _. format })
        (run_lexer (record { source = faulty; flags = no_flags; tab_size = 4 })).tokens
      ≡ some (ok root p))
    × (run_type_checker length faulty root
        ≡ some (record {
          tir = record { symbols = map (λ d. make_function d.token_offset) root.definitions };
          sym_table = [];
        }))
type_checker_returns_example =
    type_checker_returns 4 (λ format _. format) length faulty (omega arith)
