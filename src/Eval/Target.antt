-- ===== src/Eval/Target.antt =====
-- src/pidprobe/_eval.py: what the source of an evaluation does in the target.
use pidprobe.Base.{String, Bool}
use pidprobe.SafeRepr.Names.{Unicode}
use pidprobe.SafeRepr.Process.{Attempt, done, ◌>>=◌, Ref, Process}
use pidprobe.SafeRepr.Render.{try_then, safe_repr_named}

-- What the source does in the target: the class of the value, and its rendering. `evaluate` is given the
-- copy of the namespace, `empty` where it cannot be copied.
module _ (p : Process) (u : Unicode) {N : Type 0} (empty : N) (copied : Attempt N)
    (evaluate : String → N → Attempt Ref) where
  unfoldable pub value_of : String → Attempt Ref
  unfolding try_then
  value_of expression = try_then copied (λ e. done empty) (λ n. done n) >>= evaluate expression

  unfoldable pub evaluated : (expression : String) → (is_masked : Bool) → Attempt (String × String)
  unfolding value_of
  evaluated expression is_masked = do
    value ← value_of expression
    type_name ← p.type_name value
    text ← safe_repr_named p u expression value is_masked
    done (type_name, text)
