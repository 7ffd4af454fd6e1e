-- ===== src/Eval.antt =====
-- src/pidprobe/_eval.py: the source of an evaluation, what it does in the target, and what the prober
-- makes of the answer. Compiling and evaluating an expression are the target's, and so arguments.
pub mod Answer
pub mod Target
use Prim.Native.String.{count}
use text.Mathlib.Text.{starts_with}
use pidprobe.Base.{ℕ, zero, suc, ◌-◌, String, ◌<>◌, Bool, Option, none, some, if◌then◌else◌, ◌≡◌}
use pidprobe.Base.Json.{Json, str, Fields, end, field}
use pidprobe.Errors.{Result, ok, ◌>>=◌}
use pidprobe.Envelope.{Envelope, text_at}

-- `text.replace(old, new)` for an `old` that is not empty: `skip` characters belong to an occurrence.
replace_from : (old new : String) → ℕ → String → String
replace_from old new skip String.[] = String.[]
replace_from old new (suc skip) (String.◌∷◌ c s) = replace_from old new skip s
replace_from old new zero (String.◌∷◌ c s) =
    let inside = replace_from old new (count old - 1) s in
    let outside = replace_from old new zero s in
    if starts_with (String.◌∷◌ c s) old then new <> inside else String.◌∷◌ c outside

unfoldable pub replace : (old new text : String) → String
unfolding replace_from
replace old new text = replace_from old new 0 text

-- The template, in one literal.
abbrev source : String
source =
    "\n__PIDPROBE_SAFEREPR__\n\nEXPRESSION = __PIDPROBE_EXPRESSION__\nIS_MASKED = __PIDPROBE_IS_MASKED__\n\n# A *copy* of the target's __main__ namespace: the expression reads whatever\n# the target's main module holds, while eval()'s own __builtins__ insertion\n# and any walrus assignment land in the copy instead of the target's module\n# dict. Copying can fail because other threads keep running while the target\n# is stopped, and an empty namespace still evaluates literals.\ntry:\n    namespace = dict(vars(_pidprobe_sys.modules[\"__main__\"]))\nexcept Exception:\n    namespace = {}\n\nvalue = eval(compile(EXPRESSION, \"<pidprobe-eval>\", \"eval\"), namespace)\n\npayload = {\n    \"type\": type(value).__name__,\n    \"result\": safe_repr_named(EXPRESSION, value, is_masked=IS_MASKED),\n}\n"

abbrev pub repr_bool : Bool → String
repr_bool b = if b then "True" else "False"

-- `injected_source` is the text of the renderer, and `repr` that of a text.
unfoldable pub build_eval_source :
    (injected_source : String)
    → (repr : String → String) → (expression : String) → (is_masked : Bool) → String
unfolding replace
build_eval_source injected_source repr expression is_masked =
    replace "__PIDPROBE_EXPRESSION__" (repr expression) (
      replace "__PIDPROBE_IS_MASKED__" (repr_bool is_masked)
        (replace "__PIDPROBE_SAFEREPR__" injected_source source))

abbrev pub payload : {F : Type 0} → String × String → Fields F
payload (type_name, result) = field "type" (str type_name) (field "result" (str result) end)

pub record Evaluation : Type 0 where
  pub pid : ℕ
  pub expression : String
  pub type : String
  pub result : String
  pub masking_enabled : Bool

-- `execute` and `payload_of` are those of the pid and of the action "evaluation".
unfoldable pub evaluate_in_target :
    {F : Type 0} (repr_json : Json F → String)
    → (build : (expression : String) → (is_masked : Bool) → String)
    → (execute : String → Result (Envelope F)) → (payload_of : Envelope F → Result (Fields F))
    → (pid : ℕ) → (expression : String) → (is_masked : Bool) → Result Evaluation
unfolding text_at
evaluate_in_target repr_json build execute payload_of pid expression is_masked = do
  envelope ← execute (build expression is_masked)
  payload ← payload_of envelope
  ok (record {
    pid = pid;
    expression = expression;
    type = text_at repr_json "type" payload "";
    result = text_at repr_json "result" payload "";
    masking_enabled = is_masked;
  })
