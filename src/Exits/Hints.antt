-- ===== src/Exits/Hints.antt =====
-- src/pidprobe/_exits.py: every failure that names a pid points at `doctor`, once.
use text.Mathlib.TextLemmas.{append_assoc}
use pidprobe.Base.{ℕ, ◌≡◌, refl, String, ◌<>◌, true, some, ◌⊎◌, inl, inr, Bool-cases}
use pidprobe.Base.Text
use pidprobe.Base.Decimal.{show}
use pidprobe.Errors.{Seconds, ProbeError, timeout_error}
use pidprobe.Exits.{doctor_hint, describe}

-- Whatever failed, the line names `pidprobe doctor` for the pid; the message stands before it as it was.
pub describe-hint :
    (error : ProbeError) (pid : ℕ)
    → (Text.contains (doctor_hint pid) (describe error (some pid)).1 ≡ true)
      × ((describe error (some pid)).1 ≡ error.message
          ⊎ ((describe error (some pid)).1 ≡ error.message <> ("; " <> doctor_hint pid)))
unfolding describe
describe-hint error pid = elim (Bool-cases (Text.contains (doctor_hint pid) error.message)) [
  | inl old ↦ rw old (old, inl refl)
  | inr new ↦ rw new (
    rw (← append_assoc error.message "; " (doctor_hint pid))
        (Text.contains-append_right (doctor_hint pid) (error.message <> "; ")),
    inr refl,
  )
]

-- A message that was described once is described as itself: the hint is never given twice.
pub describe_twice :
    (error : ProbeError) (pid : ℕ)
    → describe (record error { message = (describe error (some pid)).1 }) (some pid)
      ≡ describe error (some pid)
unfolding describe
describe_twice error pid =
    let hint = doctor_hint pid in
    let added : Text.contains hint (error.message <> ("; " <> hint)) ≡ true =
      rw (← append_assoc error.message "; " hint)
        (Text.contains-append_right hint (error.message <> "; ")) in
    elim (Bool-cases (Text.contains hint error.message)) [
      | inl old ↦ simp old
      | inr new ↦ simp (new, added)
    ]

-- A timeout's message names `doctor` for the pid already, and gets no second hint.
pub describe-timeout_error :
    (show_g : Seconds → String) (seconds : Seconds) (pid : ℕ)
    → (describe (timeout_error show_g seconds (some pid)) (some pid)).1
      ≡ (timeout_error show_g seconds (some pid)).message
unfolding describe timeout_error
describe-timeout_error show_g seconds pid =
    let reached : String = "target never reached a safe eval point within " in
    let blocked : String =
      "s; it may be blocked inside a C extension or a long syscall; try an out-of-process sampler like py-spy, and " in
    let rest = show pid <> "` for attach diagnostics" in
    let split : reached <> (show_g seconds <> ((blocked <> "run `pidprobe doctor ") <> rest))
        ≡ (reached <> (show_g seconds <> blocked)) <> doctor_hint pid =
      simp append_assoc in
    let named : Text.contains (doctor_hint pid) (timeout_error show_g seconds (some pid)).message
        ≡ true =
      rw split
        (Text.contains-append_right (doctor_hint pid) (reached <> (show_g seconds <> blocked))) in
    simp named
