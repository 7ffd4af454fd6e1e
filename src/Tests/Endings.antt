-- ===== src/Tests/Endings.antt =====
-- How invocations of the command line end.
use pidprobe.Base.{ℕ, ◌≡◌, ◌⊎◌, refl, String, ◌<>◌, true, none, some}
use pidprobe.Base.Text
use pidprobe.Errors.{
  Seconds, ErrorInfo, ProbeKind, ProbeError, attach, timeout, Kind, os_error, process_lookup,
  broken_pipe, value_error, Exception, probe, python, Result, ok, raised, timeout_error, from_cause,
  other_exception,
}
use pidprobe.Exits.{doctor_hint, describe}
use pidprobe.Exits.Hints.{describe-hint}
use pidprobe.Cli.{Args, is_debug, main}
use pidprobe.Cli.Laws.{IsDocumented, main-IsDocumented, main_raises}

abbrev show_g : Seconds → String
show_g seconds = "5"

abbrev slow : ProbeError
slow = timeout_error show_g 5000000000 (some 7)

abbrev refused : ProbeError
refused = from_cause 7 value_error "ValueError" "no"

abbrev args : Args
args = record {
  command = "snap";
  pid = some 7;
  timeout = none;
  global_timeout = none;
  is_debug = true;
}

describe-hint_example :
    (Text.contains (doctor_hint 7) (describe refused (some 7)).1 ≡ true)
    × ((describe refused (some 7)).1 ≡ refused.message
        ⊎ ((describe refused (some 7)).1 ≡ refused.message <> ("; " <> doctor_hint 7)))
describe-hint_example = describe-hint refused 7

abbrev closed_pipe : Exception
closed_pipe = python (os_error broken_pipe) "BrokenPipeError" "[Errno 32] Broken pipe"

main-IsDocumented_example : IsDocumented 141
unfolding main
main-IsDocumented_example = main-IsDocumented args none (raised closed_pipe) 141 (λ c e. cc) refl

abbrev bug : Exception
bug = python other_exception "KeyError" "'x'"

main_raises_example :
    ◌≡◌ {A = Result ℕ} (raised bug) (raised bug)
    × ((is_debug args none ≡ true)
        ⊎ ((name : String) × (message : String) × (bug
              ≡ python pidprobe.Errors.other_base name message)))
unfolding main is_debug
main_raises_example = main_raises args none (raised bug) bug refl
