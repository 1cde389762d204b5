-- ===== src/Console/Tests.antt =====
-- A set-up of the console in which one call fails (cero/report/console_reporter.win.cc).
use cero.Common.{false, none, [], codes}
use cero.Console.{Console, Answers, init_console_environment, IsSetUp, init_console_environment_lem}
use cero.FileView.System.{gives, failed}

abbrev answers : Answers
answers = record {
  set_console_cp = failed (record { is_no_such_file = false; message = codes "no console" });
  get_std_handle = gives tt;
  get_console_mode = none;
  set_console_mode = gives tt;
}

abbrev console : Console
console = record { input_is_utf8 = false; mode = 3; printed = [] }

init_console_environment_lem_example : IsSetUp console (init_console_environment answers console)
init_console_environment_lem_example = init_console_environment_lem answers console
