-- ===== src/Exits.antt =====
-- src/pidprobe/_exits.py: exit codes, and how a failure is described.
pub mod Hints
pub mod Codes
use pidprobe.Base.{
  ℕ, ◌+◌, ◌≡◌, refl, String, ◌<>◌, Bool, true, false, ◌||◌, Option, none, some, List, [], ◌∷◌, map,
  count, ltb, ◌==◌, if◌then◌else◌,
}
use pidprobe.Base.Text
use pidprobe.Base.Decimal.{show}
use pidprobe.Errors.{
  ProbeKind, generic, attach, no_such_process, timeout, channel, target, ProbeError,
}

abbrev pub exit_ok : ℕ
exit_ok = 0

abbrev pub exit_probe_error : ℕ
exit_probe_error = 1

abbrev pub exit_usage : ℕ
exit_usage = 2

abbrev pub exit_target_not_found : ℕ
exit_target_not_found = 3

abbrev pub exit_attach_failed : ℕ
exit_attach_failed = 4

abbrev pub exit_timeout : ℕ
exit_timeout = 5

abbrev pub exit_target_error : ℕ
exit_target_error = 6

abbrev pub exit_diagnosis_failed : ℕ
exit_diagnosis_failed = 7

abbrev pub exit_internal_error : ℕ
exit_internal_error = 70

abbrev pub exit_interrupted : ℕ
exit_interrupted = 130

abbrev pub exit_broken_pipe : ℕ
exit_broken_pipe = 141

abbrev pub exit_code_table : List (ℕ × String)
exit_code_table =
    (exit_ok, "success")
    ∷ (exit_probe_error, "probe failed for a reason with no more specific code")
    ∷ (exit_usage, "invalid command line")
    ∷ (exit_target_not_found, "no such process")
    ∷ (exit_attach_failed, "attaching to the target was refused")
    ∷ (exit_timeout, "the target did not answer within the timeout")
    ∷ (exit_target_error, "the injected code raised inside the target")
    ∷ (exit_diagnosis_failed, "doctor found a check that blocks attaching")
    ∷ (exit_internal_error, "pidprobe hit an unexpected error (a bug)")
    ∷ (exit_interrupted, "interrupted with Ctrl-C")
    ∷ (exit_broken_pipe, "the reader of stdout closed the pipe")
    ∷ []

-- The order of the cases matters in the source: a `NoSuchProcessError` is an `AttachError`.
unfoldable pub exit_code_for : ProbeKind → ℕ
exit_code_for (no_such_process pid hint) = exit_target_not_found
exit_code_for (attach pid hint) = exit_attach_failed
exit_code_for (timeout seconds pid) = exit_timeout
exit_code_for (target pid error action) = exit_target_error
exit_code_for _ = exit_probe_error

-- `DOCTOR_HINT.format(pid=pid)`
unfoldable pub doctor_hint : ℕ → String
doctor_hint pid = "run `pidprobe doctor " <> (show pid <> "` for attach diagnostics")

unfoldable pub describe : ProbeError → Option ℕ → ℕ × String
unfolding exit_code_for doctor_hint Text.contains
describe error none = (exit_code_for error.kind, error.message)
describe error (some pid) =
    let hint = doctor_hint pid in
    if Text.contains hint error.message
    then (exit_code_for error.kind, error.message)
    else (exit_code_for error.kind, error.message <> ("; " <> hint))

-- `f"{code:>3}"`
pad_code : ℕ → String
pad_code code =
    let digits = show code in
    if ltb (count digits) 2
    then "  " <> digits
    else if ltb (count digits) 3
    then " " <> digits
    else digits

unfoldable pub format_exit_codes : String
unfolding Text.join pad_code
format_exit_codes =
    "exit codes:\n"
    <> (Text.join "\n"
          (map (λ (code, meaning). "  " <> (pad_code code <> ("  " <> meaning))) exit_code_table)
        <> "\n")
