-- ===== src/Console.antt =====
-- Setting up the console on Windows: cero/report/console_reporter.win.cc.
mod Tests
use Prim.Native.Nat.{bit_or}
use cero.Common.{
  ℕ, ◌+◌, ◌*◌, ◌/◌, ◌%◌, ◌^◌, ◌<◌, Bool, true, false, Option, none, some, List, [], ◌∷◌, ◌++◌,
  append_assoc, append-nil, Option-cases, inl, inr, Bytes, String, ◌≡◌, refl, sym, ◌∙◌, arith,
}
use cero.Common.Bits.{bit_or_flag}
use cero.FileView.System.{ErrorCondition, Answer, gives, failed, on_answer, on_answer_rule}

-- A line that is printed: its format, and the system error that it tells of.
pub record Line : Type 0 where
  pub format : String
  pub error : ErrorCondition

-- Whether the console's input code page, which `SetConsoleCP` sets, is UTF-8, its output mode, and
-- what was printed.
pub record Console : Type 0 where
  pub input_is_utf8 : Bool
  pub mode : ℕ
  pub printed : List Line

-- What the system answers; `none` is that the mode can be had.
pub record Answers : Type 0 where
  pub set_console_cp : Answer (Unit {0})
  pub get_std_handle : Answer (Unit {0})
  pub get_console_mode : Option ErrorCondition
  pub set_console_mode : Answer (Unit {0})

-- `ENABLE_VIRTUAL_TERMINAL_PROCESSING`.
abbrev pub virtual_terminal_processing : ℕ
virtual_terminal_processing = 0x4

unfoldable pub println : String → ErrorCondition → Console → Console
println format error c = record c {
  printed = c.printed ++ (record { format = format; error = error } ∷ []);
}

unfoldable pub enable_utf8_output : Answers → Console → Console
unfolding println
enable_utf8_output a c =
    on_answer a.set_console_cp
      (λ e. println "failed to set console output code page to UTF-8, {}" e c)
      λ _. record c { input_is_utf8 = true }

unfoldable pub set_mode : Answers → Console → Console
unfolding println
set_mode a c =
    on_answer a.set_console_mode
      (λ e. println "failed to set console mode to enable virtual terminal sequences, {}" e c)
      λ _. record c { mode = bit_or c.mode virtual_terminal_processing }

unfoldable pub get_mode : Answers → Console → Console
unfolding println set_mode
get_mode a c = elim a.get_console_mode [
  | some e ↦ println "failed to get console mode to enable virtual terminal sequences, {}" e c
  | none ↦ set_mode a c
]

unfoldable pub enable_virtual_terminal_sequences : Answers → Console → Console
unfolding println get_mode
enable_virtual_terminal_sequences a c =
    on_answer a.get_std_handle
      (λ e. println "failed to get stdout handle to enable virtual terminal sequences, {}" e c)
      λ _. get_mode a c

unfoldable pub init_console_environment : Answers → Console → Console
unfolding enable_utf8_output enable_virtual_terminal_sequences
init_console_environment a c = enable_virtual_terminal_sequences a (enable_utf8_output a c)

-- What the set-up of the output does: the other bits of the mode stay, and the flag is on unless a
-- line told of a failure.
pub record Enabled (c d : Console) : Type 0 where
  pub lines : List Line
  pub printed : d.printed ≡ c.printed ++ lines
  pub below : d.mode % 4 ≡ c.mode % 4
  pub above : d.mode / 8 ≡ c.mode / 8
  pub processing : lines ≡ [] → d.mode / 4 % 2 ≡ 1
  pub code_page : d.input_is_utf8 ≡ c.input_is_utf8

println-Enabled :
    (format : String) (e : ErrorCondition) (c : Console) → Enabled c (println format e c)
unfolding println
println-Enabled format e c = record {
  lines = record { format = format; error = e } ∷ [];
  printed = refl;
  below = refl;
  above = refl;
  processing = λ h. cc;
  code_page = refl;
}

set_mode-Enabled : (a : Answers) (c : Console) → Enabled c (set_mode a c)
unfolding set_mode
set_mode-Enabled a c =
    on_answer_rule (Enabled c) a.set_console_mode
      (λ e.
        println-Enabled "failed to set console mode to enable virtual terminal sequences, {}" e c)
      (λ _.
        let (below, flag, above) = bit_or_flag c.mode in
        record {
          lines = [];
          printed = sym (append-nil c.printed);
          below = below;
          above = above;
          processing = λ h. flag;
          code_page = refl;
        })

get_mode-Enabled : (a : Answers) (c : Console) → Enabled c (get_mode a c)
unfolding get_mode
get_mode-Enabled a c = elim (Option-cases a.get_console_mode) [
  | inl e ↦ rw (e, get_mode) (set_mode-Enabled a c)
  | inr (x, e) ↦
      rw (e, get_mode)
        (println-Enabled "failed to get console mode to enable virtual terminal sequences, {}" x c)
]

output-Enabled : (a : Answers) (c : Console) → Enabled c (enable_virtual_terminal_sequences a c)
unfolding enable_virtual_terminal_sequences
output-Enabled a c =
    on_answer_rule (Enabled c) a.get_std_handle
      (λ e.
        println-Enabled "failed to get stdout handle to enable virtual terminal sequences, {}" e c)
      (λ _. get_mode-Enabled a c)

-- The whole set-up.
pub record IsSetUp (c d : Console) : Type 0 where
  pub lines : List Line
  pub printed : d.printed ≡ c.printed ++ lines
  pub below : d.mode % 4 ≡ c.mode % 4
  pub above : d.mode / 8 ≡ c.mode / 8
  pub done : lines ≡ [] → (d.mode / 4 % 2 ≡ 1) × (d.input_is_utf8 ≡ true)

nil_of_cons : (x : Line) (xs : List Line) → x ∷ xs ≡ [] → ⊥
nil_of_cons x xs h = cc

-- Whatever fails, setting up the console leaves every other bit of its mode, and prints only behind
-- what was printed; where it prints nothing, the flag for terminal sequences is on and the input
-- code page is UTF-8.
pub init_console_environment_lem :
    (a : Answers) (c : Console) → IsSetUp c (init_console_environment a c)
unfolding init_console_environment enable_utf8_output println
init_console_environment_lem a c =
    on_answer_rule (λ d. IsSetUp c (enable_virtual_terminal_sequences a d)) a.set_console_cp
      (λ e.
        let line : Line = record {
          format = "failed to set console output code page to UTF-8, {}";
          error = e;
        } in
        let w = output-Enabled a (record c { printed = c.printed ++ (line ∷ []) }) in
        record {
          lines = line ∷ w.lines;
          printed = w.printed ∙ append_assoc c.printed (line ∷ []) w.lines;
          below = w.below;
          above = w.above;
          done = λ h. absurd (nil_of_cons line w.lines h);
        })
      (λ _.
        let w = output-Enabled a (record c { input_is_utf8 = true }) in
        record {
          lines = w.lines;
          printed = w.printed;
          below = w.below;
          above = w.above;
          done = λ h. (w.processing h, w.code_page);
        })
