-- ===== src/Exits/Codes.antt =====
-- src/pidprobe/_exits.py: the table of exit codes.
use pidprobe.Base.{
  ℕ, ◌≡◌, refl, String, List, [], ◌∷◌, Option, none, some, ◌⊎◌, inl, inr, ◌==◌, if◌then◌else◌, ◌≢◌,
}
use pidprobe.Errors.{
  ProbeKind, from_cause, Kind, os_error, process_lookup, attach, no_such_process, timeout, target,
}
use pidprobe.Exits.{exit_code_table, exit_code_for, exit_target_not_found, exit_attach_failed}

-- The meaning that a table gives a code.
unfoldable pub meaning : List (ℕ × String) → ℕ → Option String
meaning [] code = none
meaning ((c, text) ∷ rows) code = if c == code then some text else meaning rows code

-- What a class of failures means to a script.
abbrev pub class_meaning : ProbeKind → String
class_meaning (attach pid hint) = "attaching to the target was refused"
class_meaning (no_such_process pid hint) = "no such process"
class_meaning (timeout seconds pid) = "the target did not answer within the timeout"
class_meaning (target pid error action) = "the injected code raised inside the target"
class_meaning _ = "probe failed for a reason with no more specific code"

-- The code of a failure stands in the table, with the meaning of the failure's class.
pub meaning-exit_code_for :
    (kind : ProbeKind) → meaning exit_code_table (exit_code_for kind) ≡ some (class_meaning kind)
unfolding meaning exit_code_for
meaning-exit_code_for (attach pid hint) = refl
meaning-exit_code_for (no_such_process pid hint) = refl
meaning-exit_code_for (timeout seconds pid) = refl
meaning-exit_code_for (target pid error action) = refl
meaning-exit_code_for _ = refl

-- A refused injection has the code for a missing process exactly if the interpreter raised
-- `ProcessLookupError`, and else the code for a refused attach.
pub exit_code_for-from_cause :
    (pid : ℕ) (kind : Kind) (type_name message : String)
    → ((kind ≡ os_error process_lookup)
        × (exit_code_for (from_cause pid kind type_name message).kind ≡ exit_target_not_found))
      ⊎ ((kind ≢ os_error process_lookup)
          × (exit_code_for (from_cause pid kind type_name message).kind ≡ exit_attach_failed))
unfolding exit_code_for from_cause
exit_code_for-from_cause pid (os_error process_lookup) type_name message = inl (refl, refl)
exit_code_for-from_cause pid (os_error _) type_name message = inr (λ e. cc, refl)
exit_code_for-from_cause pid _ type_name message = inr (λ e. cc, refl)
