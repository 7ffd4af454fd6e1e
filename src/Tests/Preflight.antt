-- ===== src/Tests/Preflight.antt =====
-- The doctor on a Linux machine, and what it reads of a target.
use pidprobe.Base.{
  ℕ, ◌≡◌, ◌≢◌, ◌↔◌, refl, inl, inr, String, ◌<>◌, true, none, some, List, [], ◌∷◌, All, ◌=ₛ◌,
  if◌then◌else◌, arith,
}
use pidprobe.Base.Decimal.{show}
use pidprobe.Base.Int.{pos}
use pidprobe.Errors.{ok}
use pidprobe.Procinfo.{
  System, is_linux, process_uid, process_executable, RunOutcome, not_run, completed,
}
use pidprobe.Procinfo.Environ.{process_environ}
use pidprobe.Procinfo.Interpreter.{
  looks_like_interpreter, interpreter_at, interpreter_of, target_interpreter,
}
use pidprobe.Procinfo.Execution.{with_execute, AgreesOnTrusted, target_interpreter-agrees}
use pidprobe.Procinfo.RoundTrip.{IsVariable, environ_block, loaded, process_environ-environ_block}
use pidprobe.Diagnosis.Check.{fail, Check, is_attachable}
use pidprobe.Doctor.Policy.{signalled}
use pidprobe.Doctor.Prober.{Environment, opened}
use pidprobe.Doctor.Diagnose.{diagnose}
use pidprobe.Doctor.Built.{Verdicts, nonempty}
use pidprobe.Doctor.Verdicts.{
  NoneBlock, HasCheckable, verdicts, diagnose_total, diagnose-is_attachable,
}

abbrev variables : List (List ℕ × List ℕ)
variables = (72 ∷ [], 47 ∷ []) ∷ (65 ∷ [], []) ∷ []

-- /proc/7 of a process whose executable is /bin/sleep.
abbrev linux : System
linux = record {
  platform = "linux";
  read_text = λ path. none;
  read_bytes = λ path. if path =ₛ "/proc/7/environ" then some (environ_block variables) else none;
  stat_uid = λ path. some 1000;
  readlink = λ path. if path =ₛ "/proc/7/exe" then some "/bin/sleep" else some "pid:[1]";
  execute = λ argv timeout. not_run;
  decode = λ bytes. elim bytes [ [] ↦ "" | b ∷ more ↦ show b ];
  parse_int = λ text. some (pos 1);
  strip = λ text. text;
  split = λ text. [];
  name_lower = λ path. "sleep";
}

-- Another machine, on which every program but `ps` answers something.
abbrev answering : List String → ℕ → RunOutcome
answering [] timeout = not_run
answering (program ∷ args) timeout =
    if program =ₛ "/bin/ps" then not_run else completed true "cpython 3 14 0"

answering-AgreesOnTrusted : AgreesOnTrusted linux answering
unfolding looks_like_interpreter
answering-AgreesOnTrusted program args timeout (inl h) = rw h refl
answering-AgreesOnTrusted program args timeout (inr h) = cc

target_interpreter-agrees_example :
    target_interpreter (with_execute linux answering) 7 ≡ target_interpreter linux 7
target_interpreter-agrees_example =
    target_interpreter-agrees linux answering answering-AgreesOnTrusted 7

variables-IsVariable : All IsVariable variables
variables-IsVariable = (
  (((λ e. omega arith), tt), ((λ e. omega arith), tt), ((λ e. omega arith), tt)),
  ((((λ e. omega arith), tt), ((λ e. omega arith), tt), tt), tt),
)

environ_found :
    linux.read_bytes ("/proc/" <> (show 7 <> "/environ")) ≡ some (environ_block variables)
unfolding show
environ_found = refl

process_environ-environ_block_example : process_environ linux 7 ≡ some (loaded linux variables [])
process_environ-environ_block_example =
    process_environ-environ_block linux 7 variables variables-IsVariable environ_found

abbrev pub machine : Environment
machine = record {
  prober = record {
    system = linux;
    repr = λ text. "'" <> (text <> "'");
    euid = 1000;
    kill = λ pid. signalled;
  };
  runtime = record { major = 3; minor = 14; executable = some "/usr/bin/python3" };
  has_remote_exec = true;
  remote_debug_enabled = true;
  implementation = "CPython";
  version = "3.14.0";
  socket_channel = opened "/tmp/pidprobe-a/s.sock";
  tempfile_channel = opened "/tmp/pidprobe-b/result.json";
  collectors = "stacks" ∷ [];
  messages = "skipping plugin collector 'x'" ∷ [];
}

messages_nonempty : All (λ m. m ≢ "") machine.messages
messages_nonempty = (nonempty _ refl, tt)

pub machine_checkable : HasCheckable machine (some 7)
unfolding process_uid target_interpreter process_executable interpreter_of interpreter_at
    looks_like_interpreter is_linux show
machine_checkable = (tt, tt, tt)

made :
    (checks : List Check) × (diagnose machine (some 7)
      ≡ ok (record { pid = some 7; checks = checks }))
    × Verdicts (verdicts machine (some 7)) checks
made = diagnose_total machine (some 7) messages_nonempty machine_checkable

diagnose-is_attachable_example :
    (is_attachable (record { pid = some 7; checks = made.0 }) ≡ true)
    ↔ NoneBlock (verdicts machine (some 7))
diagnose-is_attachable_example =
    diagnose-is_attachable machine (some 7) (record { pid = some 7; checks = made.0 })
      messages_nonempty made.1

abbrev failure : Check
failure = record { name = "x"; status = fail; summary = "s"; cause = "c"; confirm = ""; fix = "f" }
