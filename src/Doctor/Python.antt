-- ===== src/Doctor/Python.antt =====
-- src/pidprobe/_target_python.py: can the target's interpreter be injected into?
use pidprobe.Base.{
  ℕ, String, ◌<>◌, Bool, not, ◌&&◌, ◌||◌, Option, none, some, List, [], ◌∷◌, ◌=ₛ◌, if◌then◌else◌,
}
use pidprobe.Base.Decimal.{show}
use pidprobe.Base.Dict.{Dict, lookup}
use pidprobe.Base.Int.{ℤ, pos, ltb_ℤ, eqb_ℤ, show_ℤ}
use pidprobe.Errors.{Result, ok, ◌>>=◌}
use pidprobe.Procinfo.{is_linux}
use pidprobe.Procinfo.Environ.{process_environ}
use pidprobe.Procinfo.Interpreter.{Version, Interpreter, not_introspectable, target_interpreter}
use pidprobe.Diagnosis.Check.{passed, warn, fail, skipped, Check, build}
use pidprobe.Doctor.Policy.{Prober, plain}

-- `sys.version_info[:2]` and `sys.executable` of the prober.
pub record Runtime : Type 0 where
  pub major : ℕ
  pub minor : ℕ
  pub executable : Option String

-- `a or b`, for a text that may be missing or empty.
abbrev pub or_else : Option String → String → String
or_else none default = default
or_else (some text) default = if text =ₛ "" then default else text

-- `_rendered(version[:2])` and `_rendered(version)`
abbrev pub rendered₂ : ℤ → ℤ → String
rendered₂ major minor = show_ℤ major <> ("." <> show_ℤ minor)

abbrev pub rendered₃ : Version → String
rendered₃ (major, minor, micro) = rendered₂ major minor <> ("." <> show_ℤ micro)

-- `version[:2] < (3, 14)`
abbrev pub is_too_old : Version → Bool
is_too_old (major, minor, micro) =
    ltb_ℤ major (pos 3) || (eqb_ℤ major (pos 3) && ltb_ℤ minor (pos 14))

module _ (p : Prober) where
  unfoldable pub variable_check : ℕ → Option String → Result Check
  variable_check pid none = build p.repr (
      plain "target_remote_debug" passed
        ("PYTHON_DISABLE_REMOTE_DEBUG is not set in pid " <> show pid))
  variable_check pid (some value) = build p.repr (record {
    name = "target_remote_debug";
    status = fail;
    summary =
        "pid " <> (show pid <> (" was started with PYTHON_DISABLE_REMOTE_DEBUG=" <> p.repr value));
    cause =
        "CPython turns the debugger interface off when PYTHON_DISABLE_REMOTE_DEBUG is present at start-up, whatever it is set to -- the empty string counts -- so the target has nothing for pidprobe to write to";
    confirm =
        "tr '\\0' '\\n' < /proc/" <> (show pid <> "/environ | grep PYTHON_DISABLE_REMOTE_DEBUG");
    fix =
        "restart the target without PYTHON_DISABLE_REMOTE_DEBUG in its environment; it is read once at interpreter start-up and cannot be cleared from outside";
  })

  unfoldable pub environ_check : ℕ → Option (Dict String) → Result Check
  unfolding variable_check
  environ_check pid none = build p.repr (record {
    name = "target_remote_debug";
    status = skipped;
    summary = "could not read the environment pid " <> (show pid <> " was started with");
    cause = "";
    confirm =
        "sudo tr '\\0' '\\n' < /proc/"
        <> (show pid <> "/environ | grep PYTHON_DISABLE_REMOTE_DEBUG");
    fix = "";
  })
  environ_check pid (some environ) =
      variable_check pid (lookup "PYTHON_DISABLE_REMOTE_DEBUG" environ)

  unfoldable pub check_target_remote_debug : ℕ → Result Check
  unfolding environ_check
  check_target_remote_debug pid =
      if not (is_linux p.system)
      then build p.repr (record {
        name = "target_remote_debug";
        status = skipped;
        summary = "another process' environment is not readable on this platform";
        cause = "";
        confirm = "sudo ps -wwEp " <> show pid;
        fix = "";
      })
      else environ_check pid (process_environ p.system pid)

  unfoldable pub unknown_target_python : Runtime → ℕ → Interpreter → Result Check
  unknown_target_python r pid interpreter = build p.repr (record {
    name = "target_python";
    status = warn;
    summary = "could not determine which Python pid " <> (show pid <> " runs");
    cause = or_else interpreter.reason not_introspectable;
    confirm = "ps -o comm= -p " <> show pid;
    fix =
        "check by hand that the target runs CPython "
        <> (show r.major
            <> ("."
                <> (show r.minor <> ": pidprobe needs the same feature release on both sides")));
  })

  unfoldable pub check_version : Interpreter → Version → Result Check
  check_version interpreter version =
      let executable = or_else interpreter.executable "python3" in
      let implementation = or_else interpreter.implementation "an unknown implementation" in
      if not (implementation =ₛ "cpython")
      then build p.repr (record {
        name = "target_python_version";
        status = fail;
        summary =
            "the target runs "
            <> (implementation <> (" " <> (rendered₃ version <> ", not CPython")));
        cause =
            "PEP 768 is a CPython feature; no other implementation exposes the debugger interface sys.remote_exec writes to";
        confirm = executable <> " -VV";
        fix =
            "probe "
            <> (implementation <> " with a sampler built for it; pidprobe cannot attach to it");
      })
      else if is_too_old version
      then build p.repr (record {
        name = "target_python_version";
        status = fail;
        summary = "the target runs CPython " <> (rendered₃ version <> ", older than 3.14");
        cause =
            "the PEP 768 debugger interface first shipped in CPython 3.14; an older target has nothing for sys.remote_exec to write to";
        confirm = executable <> " -VV";
        fix =
            "restart the target on CPython 3.14 or newer, or use an out-of-process sampler such as py-spy instead";
      })
      else build p.repr
          (plain "target_python_version" passed ("the target runs CPython " <> rendered₃ version))

  unfoldable pub check_matches_prober : Runtime → Interpreter → Version → Result Check
  check_matches_prober r interpreter (major, minor, micro) =
      let theirs = rendered₂ major minor in
      let mine = rendered₂ (pos r.major) (pos r.minor) in
      let executable = or_else interpreter.executable "python3" in
      if theirs =ₛ mine
      then build p.repr
          (plain "target_python_match" passed ("target and prober both run Python " <> mine))
      else build p.repr (record {
        name = "target_python_match";
        status = fail;
        summary = "the target runs Python " <> (theirs <> (", pidprobe runs " <> mine));
        cause =
            "sys.remote_exec reaches the debugger interface through offsets that are only stable within one CPython feature release, so it refuses a target built from a different one";
        confirm = executable <> (" -VV; " <> (or_else r.executable "python3" <> " -VV"));
        fix =
            "run pidprobe from a "
            <> (theirs
                <> (" interpreter, for example with `uv tool install --python "
                    <> (theirs
                        <> (" pidprobe` or `" <> (executable <> " -m pip install pidprobe`")))));
      })

  unfoldable pub interpreter_checks :
      Runtime → ℕ → Interpreter → Option Version → Result (List Check)
  unfolding unknown_target_python check_version check_matches_prober
  interpreter_checks r pid interpreter none = do
    unknown ← unknown_target_python r pid interpreter
    ok (unknown ∷ [])
  interpreter_checks r pid interpreter (some version) = do
    first ← check_version interpreter version
    second ← check_matches_prober r interpreter version
    ok (first ∷ second ∷ [])

  unfoldable pub check_target_python : Runtime → ℕ → Result (List Check)
  unfolding interpreter_checks
  check_target_python r pid = do
    interpreter ← target_interpreter p.system pid
    interpreter_checks r pid interpreter interpreter.version
