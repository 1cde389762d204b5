-- ===== src/Report.antt =====
-- Diagnostics: cero/report/message.hh and .cc, cero/report/message_args.hh and .cc,
-- cero/report/code_location.hh and cero/report/reporter.cc.
use cero.Common.{
  ℕ, ◌+◌, Bool, false, not, ◌&&◌, Option, some, none, List, [], ◌∷◌, Bytes, codes, String, ◌==◌,
  if◌then◌else◌, length,
}

pub data Message : Type 0 where
  file_not_found could_not_open_file source_file_too_large invalid_character : Message
  missing_closing_quote unterminated_block_comment expect_function_struct_or_enum : Message
  expect_paren_after_function_name expect_parameter_type expect_parameter_name : Message
  expect_paren_after_parameters expect_return_type expect_brace_before_function_body : Message
  expect_expression expect_semicolon expect_closing_paren_in_call : Message

pub data MessageLevel : Type 0 where
  error warning help note : MessageLevel

unfoldable pub get_message_format_string : Message → Bytes
get_message_format_string file_not_found = codes "file not found"
get_message_format_string could_not_open_file = codes "could not open file, system error: \"{}\""
get_message_format_string source_file_too_large =
    codes "source file is too large, maximum allowed is {} bytes"
get_message_format_string invalid_character = codes "invalid character `0x{:x}`"
get_message_format_string missing_closing_quote = codes "missing closing quote"
get_message_format_string unterminated_block_comment =
    codes "block comment must be closed with `*/`"
get_message_format_string expect_function_struct_or_enum =
    codes "expected function, struct or enum, but found {}"
get_message_format_string expect_paren_after_function_name =
    codes "expected `(` after function name, but found {}"
get_message_format_string expect_parameter_type = codes "expected type for parameter, but found {}"
get_message_format_string expect_parameter_name = codes "expected name for parameter, but found {}"
get_message_format_string expect_paren_after_parameters =
    codes "expected `)` after parameters, but found {}"
get_message_format_string expect_return_type = codes "expected return type, but found {}"
get_message_format_string expect_brace_before_function_body =
    codes "expected `{{` before function body, but found {}"
get_message_format_string expect_expression = codes "expected expression, but found {}"
get_message_format_string expect_semicolon = codes "expected a `;`, but found {}"
get_message_format_string expect_closing_paren_in_call =
    codes "expected closing `)` in function call, but found {}"

unfoldable pub get_message_level_string : MessageLevel → Bytes
get_message_level_string error = codes "error"
get_message_level_string warning = codes "warning"
get_message_level_string help = codes "help"
get_message_level_string note = codes "note"

unfoldable pub get_default_message_level : Message → MessageLevel
get_default_message_level unterminated_block_comment = warning
get_default_message_level _ = error

-- A formatting argument: a number or a text.
pub data MessageArg : Type 0 where
  number : ℕ → MessageArg
  text : Bytes → MessageArg

-- The loop of `valid_for_message` over the format string, from its two local variables.
unfoldable pub placeholder_count : Bool → ℕ → Bytes → ℕ
placeholder_count is_open count [] = count
placeholder_count is_open count (c ∷ cs) =
    let close = is_open && (c == b'}') in
    placeholder_count (if c == b'{' then not is_open else if close then false else is_open)
      (if c == b'{' then count else if close then count + 1 else count) cs

unfoldable pub valid_for_message : List MessageArg → Message → Bool
unfolding placeholder_count get_message_format_string
valid_for_message args message =
    length args == placeholder_count false 0 (get_message_format_string message)

pub record CodeLocation : Type 0 where
  pub path : String
  pub line : ℕ
  pub column : ℕ

-- One call of `Reporter::report`.
pub record Report : Type 0 where
  pub location : CodeLocation
  pub message : Message
  pub args : List MessageArg

-- What `handle_report` is called with.
pub record Diagnostic : Type 0 where
  pub location : CodeLocation
  pub level : MessageLevel
  pub text : Bytes

-- `Reporter::report`; `vformat` is the formatting library's. `none` is a failed assertion.
unfoldable pub report : (Bytes → List MessageArg → Bytes) → Report → Option Diagnostic
unfolding valid_for_message get_message_format_string get_default_message_level
report vformat r =
    if valid_for_message r.args r.message
    then some (record {
      location = r.location;
      level = get_default_message_level r.message;
      text = vformat (get_message_format_string r.message) r.args;
    })
    else none
