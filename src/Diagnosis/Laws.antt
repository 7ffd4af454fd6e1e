-- ===== src/Diagnosis/Laws.antt =====
-- src/pidprobe/_diagnosis.py: what a check that was built carries, and what a report says.
use pidprobe.Base.{◌≡◌, ◌≢◌, ◌↔◌, refl, String, true, List, [], ◌∷◌, All, arith, eq_iff}
use pidprobe.Errors.{ok}
use pidprobe.Diagnosis.Check.{
  fail, Check, is_explained, build, Diagnosis, with_status, is_attachable,
}

-- A warning or a failure says why, how to see it and what to do.
abbrev pub IsActionable : Check → Type 0
IsActionable check =
    is_explained check.status ≡ true → (check.cause ≢ "") × (check.confirm ≢ "") × (check.fix ≢ "")

-- A check is built exactly if it is actionable, and is what it was given.
pub build_iff :
    (repr : String → String) (check : Check) → (build repr check ≡ ok check) ↔ IsActionable check
unfolding build
build_iff repr check = (
  λ h e. ground (arith, eq_iff check.cause "", eq_iff check.confirm "", eq_iff check.fix ""),
  λ h. ground (arith, eq_iff check.cause "", eq_iff check.confirm "", eq_iff check.fix ""),
)

abbrev pub NoneFailed : List Check → Type 0
NoneFailed = All (λ check. check.status ≢ fail)

with_status-fail : (checks : List Check) → (with_status fail checks ≡ []) ↔ NoneFailed checks
unfolding with_status
with_status-fail [] = (λ h. tt, λ h. refl)
with_status-fail (check ∷ checks) = ground (arith, with_status-fail checks)

-- An attach is reported possible exactly if no check failed; a warning never blocks it.
pub is_attachable_iff : (d : Diagnosis) → (is_attachable d ≡ true) ↔ NoneFailed d.checks
unfolding is_attachable
is_attachable_iff d =
    let same = with_status-fail d.checks in
    (λ h. same.0 (ground arith), λ h. rw (same.1 h, is_attachable))
