-- ===== src/Diagnosis/Report.antt =====
-- src/pidprobe/_diagnosis.py: `as_document` and `render_text`.
use pidprobe.Base.{
  ℕ, zero, suc, ◌-◌, String, ◌<>◌, count, Option, none, some, List, [], ◌∷◌, ◌++◌, map, length,
  ◌==◌, if◌then◌else◌,
}
use pidprobe.Base.Text
use pidprobe.Base.Decimal.{show}
use pidprobe.Base.Int.{pos}
use pidprobe.Base.Json.{Json, null, bool, int, str, arr, obj, Items, nil, cons, Fields, end, field}
use pidprobe.Diagnosis.Check.{
  Status, passed, warn, fail, skipped, value, Check, details, Diagnosis, failures, warnings,
  is_attachable,
}

module _ {F : Type 0} where
  details_fields : List (String × String) → Fields F
  details_fields [] = end
  details_fields ((label, text) ∷ rest) = field label (str text) (details_fields rest)

  check_document : Check → Json F
  unfolding details_fields details
  check_document check = obj (
      field "name" (str check.name) (
        field "status" (str (value check.status))
          (field "summary" (str check.summary) (details_fields (details check)))))

  check_documents : List Check → Items F
  unfolding check_document
  check_documents [] = nil
  check_documents (check ∷ checks) = cons (check_document check) (check_documents checks)

  unfoldable pub as_document : Diagnosis → Json F
  unfolding check_documents is_attachable
  as_document d =
      let pid : Json F = elim d.pid [ none ↦ null | some n ↦ int (pos n) ] in
      obj (
        field "pid" pid (
          field "attachable" (bool (is_attachable d))
            (field "checks" (arr (check_documents d.checks)) end)))

spaces : ℕ → String
spaces zero = ""
spaces (suc n) = " " <> spaces n

-- `f"{text:<{width}}"`
pad : String → ℕ → String
unfolding spaces
pad text width = text <> spaces (width - count text)

abbrev upper : Status → String
upper passed = "OK"
upper warn = "WARN"
upper fail = "FAIL"
upper skipped = "SKIPPED"

check_lines : Check → List String
unfolding pad details
check_lines check =
    ("  " <> (pad (upper check.status) 8 <> (pad check.name 22 <> check.summary)))
    ∷ map (λ (label, text). "            " <> (label <> (": " <> text))) (details check)

checks_lines : List Check → List String
unfolding check_lines
checks_lines [] = []
checks_lines (check ∷ checks) = check_lines check ++ checks_lines checks

headline : Option ℕ → String
headline none = "pidprobe doctor: checking this environment (no pid given)"
headline (some pid) = "pidprobe doctor: checking this environment against pid " <> show pid

warning_suffix : ℕ → String
warning_suffix warned =
    if warned == 0
    then ""
    else if warned == 1
    then " (1 warning)"
    else " (" <> (show warned <> " warnings)")

unfoldable pub verdict : Diagnosis → String
unfolding warning_suffix
verdict d =
    let target : String = elim d.pid [ none ↦ "a target" | some pid ↦ "pid " <> show pid ] in
    let suffix = warning_suffix (length (warnings d)) in
    let failed = length (failures d) in
    if failed == 0
    then "nothing blocks attaching to " <> (target <> suffix)
    else show failed
      <> ((if failed == 1 then " check" else " checks")
          <> (" failed; attaching to " <> (target <> (" will not work" <> suffix))))

unfoldable pub render_text : Diagnosis → String
unfolding Text.join checks_lines headline verdict
render_text d =
    Text.join "\n" ((headline d.pid ∷ "" ∷ []) ++ (checks_lines d.checks ++ ("" ∷ verdict d ∷ [])))
    <> "\n"
