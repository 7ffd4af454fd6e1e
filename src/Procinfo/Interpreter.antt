-- ===== src/Procinfo/Interpreter.antt =====
-- src/pidprobe/_procinfo.py: `Interpreter` and `target_interpreter`.
use text.Mathlib.Text.{starts_with}
use pidprobe.Base.{ℕ, String, Bool, ◌||◌, Option, none, some, List, [], ◌∷◌, if◌then◌else◌}
use pidprobe.Base.Int.{ℤ}
use pidprobe.Errors.{Result, ok, ◌>>=◌}
use pidprobe.Procinfo.{System, is_linux, is_macos, process_executable, run}

abbrev pub Version : Type 0
Version = ℤ × ℤ × ℤ

pub record Interpreter : Type 0 where
  pub executable : Option String
  pub implementation : Option String
  pub version : Option Version
  pub reason : Option String

abbrev pub not_introspectable : String
not_introspectable =
    "this platform exposes no way to inspect another process; only Linux (procfs) and macOS (ps) are supported"

abbrev pub no_executable : String
no_executable = "the operating system did not report an executable for this pid"

abbrev pub not_an_interpreter : String
not_an_interpreter =
    "the process does not run an executable named like a Python interpreter, so pidprobe did not run it to ask for a version"

abbrev pub unqueryable : String
unqueryable = "running the target's executable to ask for its version failed"

abbrev pub version_script : String
version_script = "import sys;print(sys.implementation.name,*sys.version_info[:3])"

abbrev unknown : Option String → String → Interpreter
unknown executable reason = record {
  executable = executable;
  implementation = none;
  version = none;
  reason = some reason;
}

module _ (s : System) where
  unfoldable pub looks_like_interpreter : String → Bool
  looks_like_interpreter executable =
      let name = s.name_lower executable in starts_with name "python" || starts_with name "pypy"

  three_numbers : String → Option ℤ → Option ℤ → Option ℤ → Option (String × Version)
  three_numbers name (some major) (some minor) (some micro) = some (name, (major, minor, micro))
  three_numbers name _ _ _ = none

  -- `_query_interpreter`, on the fields of the output.
  query_fields : List String → Option (String × Version)
  unfolding three_numbers
  query_fields (name ∷ major ∷ minor ∷ micro ∷ []) =
      three_numbers name (s.parse_int major) (s.parse_int minor) (s.parse_int micro)
  query_fields _ = none

  unfoldable pub query_interpreter : String → Result (Option (String × Version))
  unfolding query_fields run
  query_interpreter executable = do
    found ← run s (executable ∷ "-c" ∷ version_script ∷ []) 10
    ok (elim found [ none ↦ none | some output ↦ query_fields (s.split output) ])

  answered : String → Option (String × Version) → Interpreter
  answered executable none = unknown (some executable) unqueryable
  answered executable (some (name, version)) = record {
    executable = some executable;
    implementation = some name;
    version = some version;
    reason = none;
  }

  unfoldable pub interpreter_at : String → Result Interpreter
  unfolding answered
  interpreter_at executable =
      if looks_like_interpreter executable
      then query_interpreter executable >>= (λ found. ok (answered executable found))
      else ok (unknown (some executable) not_an_interpreter)

  unfoldable pub interpreter_of : Option String → Result Interpreter
  interpreter_of none =
      ok (unknown none (if is_linux s || is_macos s then no_executable else not_introspectable))
  interpreter_of (some executable) = interpreter_at executable

  unfoldable pub target_interpreter : ℕ → Result Interpreter
  unfolding interpreter_of
  target_interpreter pid = do found ← process_executable s pid; interpreter_of found
