-- ===== src/Eval/Answer.antt =====
-- src/pidprobe/_eval.py: what is evaluated in the target is what the prober shows.
use pidprobe.Base.{ℕ, String, Bool}
use pidprobe.Base.Json.{Json}
use pidprobe.Envelope.{Envelope}
use pidprobe.SafeRepr.Process.{Process}
use pidprobe.Eval.{Evaluation}

-- The prober's document of an evaluation, for what the target found.
abbrev pub shown : ℕ → String → Bool → String × String → Evaluation
shown pid expression is_masked (type_name, result) = record {
  pid = pid;
  expression = expression;
  type = type_name;
  result = result;
  masking_enabled = is_masked;
}
