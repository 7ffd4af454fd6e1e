-- ===== src/Diagnosis/Check.antt =====
-- src/pidprobe/_diagnosis.py: `CheckStatus`, `Check` and `Diagnosis`.
use pidprobe.Base.{
  ℕ, String, ◌<>◌, Bool, true, false, ◌&&◌, ◌||◌, Option, List, [], ◌∷◌, ◌++◌, ◌=ₛ◌, if◌then◌else◌,
}
use pidprobe.Errors.{Result, ok, raised, python, value_error}

pub data Status : Type 0 where
  passed warn fail skipped : Status

-- `status.value`
abbrev pub value : Status → String
value passed = "ok"
value warn = "warn"
value fail = "fail"
value skipped = "skipped"

pub record Check : Type 0 where
  pub name : String
  pub status : Status
  pub summary : String
  pub cause : String
  pub confirm : String
  pub fix : String

-- `status in _EXPLAINED`
abbrev pub is_explained : Status → Bool
is_explained passed = false
is_explained warn = true
is_explained fail = true
is_explained skipped = false

abbrev pub is_empty : String → Bool
is_empty text = text =ₛ ""

-- `__post_init__`, with what it checks; `repr` is the `!r` of the name.
unfoldable pub build : (String → String) → Check → Result Check
build repr check =
    if is_explained check.status
      && (is_empty check.cause || is_empty check.confirm || is_empty check.fix)
    then raised (
        python value_error "ValueError" (
          "check "
          <> (repr check.name
              <> (" is "
                  <> (value check.status
                      <> " and must carry a cause, a confirmation command and a fix")))))
    else ok check

populated : String → String → List (String × String)
populated label text = if is_empty text then [] else (label, text) ∷ []

unfoldable pub details : Check → List (String × String)
unfolding populated
details check =
    populated "cause" check.cause
    ++ (populated "confirm" check.confirm ++ populated "fix" check.fix)

pub record Diagnosis : Type 0 where
  pub pid : Option ℕ
  pub checks : List Check

abbrev pub same_status : Status → Status → Bool
same_status passed passed = true
same_status warn warn = true
same_status fail fail = true
same_status skipped skipped = true
same_status _ _ = false

-- `_with_status`
unfoldable pub with_status : Status → List Check → List Check
with_status status [] = []
with_status status (check ∷ checks) =
    let rest = with_status status checks in
    if same_status check.status status then check ∷ rest else rest

unfoldable pub failures : Diagnosis → List Check
unfolding with_status
failures d = with_status fail d.checks

unfoldable pub warnings : Diagnosis → List Check
unfolding with_status
warnings d = with_status warn d.checks

unfoldable pub is_attachable : Diagnosis → Bool
unfolding failures
is_attachable d = elim (failures d) [ [] ↦ true | c ∷ cs ↦ false ]
