-- ===== src/Cli/Laws.antt =====
-- src/pidprobe/cli.py: what `main` promises of its exit codes, of stderr and of tracebacks.
use pidprobe.Base.{
  ℕ, ◌≡◌, ◌≢◌, refl, String, ◌<>◌, Bool, true, false, Option, none, some, [], ◌∷◌, if◌then◌else◌,
  arith, inl, inr, ◌⊎◌,
}
use pidprobe.Base.Text
use pidprobe.Errors.{
  ProbeError, broken_pipe, os_error, keyboard_interrupt, other_base, Exception, probe, python,
  Result, ok, raised,
}
use pidprobe.Exits.{describe, exit_code_for, exit_code_table, doctor_hint}
use pidprobe.Exits.Codes.{meaning, class_meaning, meaning-exit_code_for}
use pidprobe.Exits.Hints.{describe-hint}
use pidprobe.Cli.{Args, is_debug, is_hinting_command, main, internal_error}

abbrev pub IsDocumented : ℕ → Type 0
IsDocumented code = meaning exit_code_table code ≢ none

describe-code :
    (error : ProbeError) (pid : Option ℕ) → (describe error pid).0 ≡ exit_code_for error.kind
unfolding describe
describe-code error none = refl
describe-code error (some pid) = ground arith

exit_code_for-IsDocumented :
    (error : ProbeError) (pid : Option ℕ) → IsDocumented (describe error pid).0
exit_code_for-IsDocumented error pid e =
    cc (describe-code error pid, meaning-exit_code_for error.kind)

meaning-IsDocumented :
    (c code : ℕ) (text : String)
    → meaning exit_code_table c ≡ some text
    → ◌≡◌ {A = Result ℕ} (ok c) (ok code)
    → IsDocumented code
meaning-IsDocumented c code text m e none_given = cc

internal_error-IsDocumented :
    (debug : Bool) (e : Exception) (type_name message : String) (code : ℕ)
    → (internal_error debug e type_name message).result ≡ ok code
    → IsDocumented code
unfolding internal_error meaning
internal_error-IsDocumented true e type_name message code h = cc
internal_error-IsDocumented false e type_name message code h =
    meaning-IsDocumented 70 code "pidprobe hit an unexpected error (a bug)" refl h

-- Every code that `main` returns is in the documented table, if the handler's own code is.
pub main-IsDocumented :
    (args : Args) (variable : Option String) (outcome : Result ℕ) (code : ℕ)
    → ((c : ℕ) → outcome ≡ ok c → IsDocumented c)
    → (main args variable outcome).result ≡ ok code
    → IsDocumented code
unfolding main meaning
main-IsDocumented args variable (ok c) code h e = h code e
main-IsDocumented args variable (raised (probe error)) code h e =
    let pid : Option ℕ = if is_hinting_command args.command then args.pid else none in
    meaning-IsDocumented (describe error pid).0 code (class_meaning error.kind)
      (rw (describe-code error pid) (meaning-exit_code_for error.kind)) e
main-IsDocumented args variable (raised (python keyboard_interrupt type_name message)) code h e =
    meaning-IsDocumented 130 code "interrupted with Ctrl-C" refl e
main-IsDocumented args variable (raised (python (os_error broken_pipe) type_name message)) code h
      e =
    meaning-IsDocumented 141 code "the reader of stdout closed the pipe" refl e
main-IsDocumented args variable (raised (python other_base type_name message)) code h e = cc
main-IsDocumented args variable (raised (python (os_error _) type_name message)) code h e =
    internal_error-IsDocumented (is_debug args variable) _ type_name message code e
main-IsDocumented args variable (raised (python _ type_name message)) code h e =
    internal_error-IsDocumented (is_debug args variable) _ type_name message code e

internal_error_raises :
    (debug : Bool) (e e' : Exception) (type_name message : String)
    → (internal_error debug e type_name message).result ≡ raised e'
    → ◌≡◌ {A = Result ℕ} (raised e) (raised e') × (debug ≡ true)
unfolding internal_error
internal_error_raises true e e' type_name message h = (h, refl)
internal_error_raises false e e' type_name message h = cc

-- An exception leaves `main` only as the handler raised it, and only under debugging or if it is
-- no `Exception`; a `ProbeError`, Ctrl-C and a closed pipe never do.
pub main_raises :
    (args : Args) (variable : Option String) (outcome : Result ℕ) (e : Exception)
    → (main args variable outcome).result ≡ raised e
    → (outcome ≡ raised e)
      × ((is_debug args variable ≡ true)
          ⊎ ((name : String) × (message : String) × (e ≡ python other_base name message)))
unfolding main
main_raises args variable (ok c) e h = cc
main_raises args variable (raised (probe error)) e h = cc
main_raises args variable (raised (python keyboard_interrupt type_name message)) e h = cc
main_raises args variable (raised (python (os_error broken_pipe) type_name message)) e h = cc
main_raises args variable (raised (python other_base type_name message)) e h =
    (h, inr (type_name, message, cc))
main_raises args variable (raised (python (os_error _) type_name message)) e h =
    let (same, debug) = internal_error_raises (is_debug args variable) _ e type_name message h in
    (same, inl debug)
main_raises args variable (raised (python _ type_name message)) e h =
    let (same, debug) = internal_error_raises (is_debug args variable) _ e type_name message h in
    (same, inl debug)

-- A probe that failed in `snap`, `eval` or `diff` writes one line, which points at `doctor` for the
-- target, and returns the code of its class; debugging makes no difference.
pub main-hint :
    (args : Args) (variable : Option String) (error : ProbeError) (pid : ℕ)
    → is_hinting_command args.command ≡ true
    → args.pid ≡ some pid
    → (line : String) × (main args variable (raised (probe error)) ≡ record {
      result = ok (exit_code_for error.kind);
      stderr = ("pidprobe: " <> (line <> "\n")) ∷ [];
      abandoned = false;
    })
      × (Text.contains (doctor_hint pid) line ≡ true)
unfolding main
main-hint args variable error pid c h =
    ((describe error (some pid)).1, simp (c, h, describe-code), (describe-hint error pid).0)
