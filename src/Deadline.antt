-- ===== src/Deadline.antt =====
-- src/pidprobe/_deadline.py: `Deadline`. What a property reads from the clock is its last argument.
use pidprobe.Base.{ℕ, ◌+◌, String, Bool, Option}
use pidprobe.Base.Int.{ℤ, pos, sub_ℕ, ltb_ℤ}
use pidprobe.Base.{not}
use pidprobe.Errors.{Seconds, Exception, probe, timeout_error}

pub record Deadline : Type 0 where
  pub budget_seconds : Seconds
  pub expires_at : Seconds
  pub pid : Option ℕ

abbrev pub start : Seconds → Option ℕ → Seconds → Deadline
start budget_seconds pid now = record {
  budget_seconds = budget_seconds;
  expires_at = now + budget_seconds;
  pid = pid;
}

abbrev pub remaining : Deadline → Seconds → ℤ
remaining deadline now = sub_ℕ deadline.expires_at now

-- `remaining <= 0`
abbrev pub is_expired : Deadline → Seconds → Bool
is_expired deadline now = not (ltb_ℤ (pos 0) (remaining deadline now))

abbrev pub timed_out : (Seconds → String) → Deadline → Exception
timed_out show_g deadline = probe (timeout_error show_g deadline.budget_seconds deadline.pid)
