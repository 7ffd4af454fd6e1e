-- ===== src/Cli.antt =====
-- src/pidprobe/cli.py: from what a handler does to an exit code and lines on stderr. The parsing of
-- the command line is argparse's, and its result is an argument.
pub mod Laws
pub mod Stdout
use pidprobe.Base.{
  ℕ, String, ◌<>◌, Bool, true, false, not, ◌&&◌, ◌||◌, Option, none, some, List, [], ◌∷◌, ◌=ₛ◌,
  if◌then◌else◌,
}
use pidprobe.Errors.{
  Seconds, ProbeError, OsKind, broken_pipe, Kind, os_error, keyboard_interrupt, other_base,
  Exception, probe, python, Result, ok, raised,
}
use pidprobe.Exits.{describe, exit_interrupted, exit_broken_pipe, exit_internal_error}

-- The parsed namespace, as far as `main` reads it.
pub record Args : Type 0 where
  pub command : String
  pub pid : Option ℕ
  pub timeout : Option Seconds
  pub global_timeout : Option Seconds
  pub is_debug : Bool

abbrev pub default_timeout : Seconds
default_timeout = 5_000_000_000

-- `_resolve_timeout`
unfoldable pub resolve_timeout : Args → Seconds
resolve_timeout args = elim args.timeout [
  | some t ↦ t
  | none ↦ elim args.global_timeout [ some t ↦ t | none ↦ default_timeout ]
]

-- `_is_debug`, with the value of PIDPROBE_DEBUG if it is set.
unfoldable pub is_debug : Args → Option String → Bool
is_debug args variable =
    let value : String = elim variable [ none ↦ "" | some v ↦ v ] in
    args.is_debug || not (value =ₛ "" || value =ₛ "0")

abbrev pub is_hinting_command : String → Bool
is_hinting_command c = c =ₛ "snap" || c =ₛ "eval" || c =ₛ "diff"

abbrev pub bug_report_hint : String
bug_report_hint =
    "this is a bug in pidprobe; re-run with --debug (or PIDPROBE_DEBUG=1) for the traceback and report it at https://github.com/tomada1114/pidprobe/issues"

-- How `main` ends: the code that it returns or the exception that leaves it, what it wrote to
-- stderr, and whether it pointed stdout at the void.
pub record Ending : Type 0 where
  pub result : Result ℕ
  pub stderr : List String
  pub abandoned : Bool

-- `_fail`
abbrev fail_line : String → String
fail_line message = "pidprobe: " <> (message <> "\n")

returning : ℕ → List String → Ending
returning code lines = record { result = ok code; stderr = lines; abandoned = false }

internal_error : Bool → Exception → String → String → Ending
unfolding returning
internal_error true e type_name message = record {
  result = raised e;
  stderr = [];
  abandoned = false;
}
internal_error false e type_name message = returning exit_internal_error (
    fail_line ("internal error: " <> (type_name <> (": " <> message)))
    ∷ fail_line bug_report_hint
    ∷ [])

-- The `except` clauses, for what the handler or the flush raised.
on_exception : Args → Option String → Exception → Ending
unfolding returning internal_error is_debug
on_exception args variable (probe error) =
    let pid : Option ℕ = if is_hinting_command args.command then args.pid else none in
    let (code, message) = describe error pid in returning code (fail_line message ∷ [])
on_exception args variable (python keyboard_interrupt type_name message) =
    returning exit_interrupted (fail_line "interrupted" ∷ [])
on_exception args variable (python (os_error broken_pipe) type_name message) = record {
  result = ok exit_broken_pipe;
  stderr = [];
  abandoned = true;
}
on_exception args variable (python other_base type_name message) = record {
  result = raised (python other_base type_name message);
  stderr = [];
  abandoned = false;
}
on_exception args variable (python kind type_name message) =
    internal_error (is_debug args variable) (python kind type_name message) type_name message

-- `main`, after the arguments are parsed. `outcome` is what `handler(args)` and the flush of stdout
-- end with.
unfoldable pub main : Args → Option String → Result ℕ → Ending
unfolding on_exception returning
main args variable (ok code) = returning code []
main args variable (raised e) = on_exception args variable e
