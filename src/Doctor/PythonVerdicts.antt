-- ===== src/Doctor/PythonVerdicts.antt =====
-- src/pidprobe/_target_python.py: when the checks of the target's interpreter block.
use pidprobe.Base.{
  ℕ, ◌≢◌, refl, String, Bool, true, false, not, ◌&&◌, ◌||◌, Option, none, some, List, [], ◌∷◌, ◌=ₛ◌,
  eq_iff, arith,
}
use pidprobe.Base.Dict.{Dict, lookup}
use pidprobe.Base.Int.{pos}
use pidprobe.Procinfo.{is_linux}
use pidprobe.Procinfo.Environ.{process_environ}
use pidprobe.Procinfo.Interpreter.{Version, Interpreter, not_introspectable}
use pidprobe.Doctor.Policy.{Prober}
use pidprobe.Doctor.Python.{
  Runtime, or_else, rendered₂, is_too_old, variable_check, environ_check, check_target_remote_debug,
  unknown_target_python, check_version, check_matches_prober, interpreter_checks,
}
use pidprobe.Doctor.Built.{
  Built, explained, unexplained, unless-Built, excused_else-Built, refuted-Built,
  refuted_else-Built, nonempty, nonempty_append, nonempty_append_right, AllBuilt, all_built, nil,
  cons, then-Built,
}

abbrev is_set : Option String → Bool
is_set none = false
is_set (some value) = true

-- The variable is present, whatever its value.
abbrev pub environ_blocks : Option (Dict String) → Bool
environ_blocks none = false
environ_blocks (some environ) = is_set (lookup "PYTHON_DISABLE_REMOTE_DEBUG" environ)

-- Another implementation, or an older CPython.
abbrev pub version_blocks : Interpreter → Version → Bool
version_blocks interpreter version =
    not (or_else interpreter.implementation "an unknown implementation" =ₛ "cpython")
    || is_too_old version

abbrev pub match_blocks : Runtime → Version → Bool
match_blocks r (major, minor, micro) =
    not (rendered₂ major minor =ₛ rendered₂ (pos r.major) (pos r.minor))

abbrev pub python_blocks : Runtime → Interpreter → Option Version → List (String × Bool)
python_blocks r interpreter none = ("target_python", false) ∷ []
python_blocks r interpreter (some version) =
    ("target_python_version", version_blocks interpreter version)
    ∷ ("target_python_match", match_blocks r version)
    ∷ []

or_else-nonempty :
    (text : Option String) (default : String) → default ≢ "" → or_else text default ≢ ""
or_else-nonempty none default h = h
or_else-nonempty (some text) default h = ground (arith, eq_iff text "")

module _ (p : Prober) where
  variable_check-Built :
      (pid : ℕ) (value : Option String)
      → Built "target_remote_debug" (is_set value) (variable_check p pid value)
  unfolding variable_check
  variable_check-Built pid none = unexplained p.repr _ refl
  variable_check-Built pid (some value) =
      explained p.repr _ (nonempty _ refl) (nonempty_append _ _ refl) (nonempty _ refl)

  environ_check-Built :
      (pid : ℕ) (environ : Option (Dict String))
      → Built "target_remote_debug" (environ_blocks environ) (environ_check p pid environ)
  unfolding environ_check
  environ_check-Built pid none = unexplained p.repr _ refl
  environ_check-Built pid (some environ) =
      variable_check-Built pid (lookup "PYTHON_DISABLE_REMOTE_DEBUG" environ)

  pub check_target_remote_debug-Built :
      (pid : ℕ)
      → Built "target_remote_debug"
          (is_linux p.system && environ_blocks (process_environ p.system pid))
          (check_target_remote_debug p pid)
  unfolding check_target_remote_debug
  check_target_remote_debug-Built pid =
      unless-Built (is_linux p.system) (unexplained p.repr _ refl)
        (environ_check-Built pid (process_environ p.system pid))

  unknown-Built :
      (r : Runtime) (pid : ℕ) (interpreter : Interpreter)
      → Built "target_python" false (unknown_target_python p r pid interpreter)
  unfolding unknown_target_python
  unknown-Built r pid interpreter =
      explained p.repr _ (or_else-nonempty interpreter.reason not_introspectable (nonempty _ refl))
        (nonempty_append _ _ refl) (nonempty_append _ _ refl)

  check_version-Built :
      (interpreter : Interpreter) (version : Version)
      → Built "target_python_version"
          (version_blocks interpreter version)
          (check_version p interpreter version)
  unfolding check_version
  check_version-Built interpreter version =
      let confirm =
        nonempty_append_right (or_else interpreter.executable "python3") " -VV" (nonempty _ refl) in
      refuted-Built
        (not (or_else interpreter.implementation "an unknown implementation" =ₛ "cpython"))
        (explained p.repr _ (nonempty _ refl) confirm (nonempty_append _ _ refl))
        (refuted_else-Built (is_too_old version)
          (explained p.repr _ (nonempty _ refl) confirm (nonempty _ refl))
          (unexplained p.repr _ refl))

  check_matches_prober-Built :
      (r : Runtime) (interpreter : Interpreter) (version : Version)
      → Built "target_python_match"
          (match_blocks r version)
          (check_matches_prober p r interpreter version)
  unfolding check_matches_prober
  check_matches_prober-Built r interpreter (major, minor, micro) =
      excused_else-Built (rendered₂ major minor =ₛ rendered₂ (pos r.major) (pos r.minor))
        (unexplained p.repr _ refl)
        (explained p.repr _ (nonempty _ refl)
          (nonempty_append_right (or_else interpreter.executable "python3") _
            (nonempty_append " -VV; " _ refl))
          (nonempty_append _ _ refl))

  pub interpreter_checks-Built :
      (r : Runtime) (pid : ℕ) (interpreter : Interpreter) (version : Option Version)
      → AllBuilt
          (python_blocks r interpreter version)
          (interpreter_checks p r pid interpreter version)
  unfolding interpreter_checks
  interpreter_checks-Built r pid interpreter none =
      then-Built (AllBuilt _) (unknown-Built r pid interpreter)
        (λ check v. all_built (check ∷ []) (cons v nil))
  interpreter_checks-Built r pid interpreter (some version) =
      then-Built (AllBuilt _) (check_version-Built interpreter version) (λ check v.
        then-Built (AllBuilt _) (check_matches_prober-Built r interpreter version)
          (λ other w. all_built (check ∷ other ∷ []) (cons v (cons w nil))))
