-- ===== src/Doctor/Built.antt =====
-- What is asked of every check of the doctor: it can be built, under its name, with an explanation
-- where one is due, and it fails exactly on a stated condition.
use text.Mathlib.TextLemmas.{append-eq-nil_iff}
use pidprobe.Base.{
  ◌≡◌, ◌≢◌, refl, String, ◌<>◌, Bool, not, ◌&&◌, ◌||◌, true, false, eq_iff, if◌then◌else◌, List, [],
  ◌∷◌, ◌++◌,
}
use pidprobe.Errors.{Result, ok, ◌>>=◌}
use pidprobe.Diagnosis.Check.{fail, Check, is_explained, is_empty, same_status, build}
use pidprobe.Diagnosis.Laws.{IsActionable, build_iff}

-- A check that was made: actionable, of this name, and a failure exactly if it blocks.
abbrev pub Verdict : String → Bool → Check → Type 0
Verdict name blocks check =
    IsActionable check × (check.name ≡ name) × (same_status check.status fail ≡ blocks)

pub data Built (name : String) (blocks : Bool) : Result Check → Type 0 where
  built : (check : Check) → Verdict name blocks check → Built name blocks (ok check)

-- The same of a list of checks, by their names and whether they block.
pub data Verdicts : List (String × Bool) → List Check → Type 0 where
  nil : Verdicts [] []
  cons :
      {name : String} {blocks : Bool} {verdicts : List (String × Bool)} {check : Check}
      {checks : List Check}
      → Verdict name blocks check
      → Verdicts verdicts checks
      → Verdicts ((name, blocks) ∷ verdicts) (check ∷ checks)

pub data AllBuilt (verdicts : List (String × Bool)) : Result (List Check) → Type 0 where
  all_built : (checks : List Check) → Verdicts verdicts checks → AllBuilt verdicts (ok checks)

pub Verdicts-append :
    {vs ws : List (String × Bool)} {cs ds : List Check}
    → Verdicts vs cs
    → Verdicts ws ds
    → Verdicts (vs ++ ws) (cs ++ ds)
Verdicts-append nil k = k
Verdicts-append (cons v h) k = cons v (Verdicts-append h k)

-- A check, or a list of checks, is made and the rest goes on with it.
pub then-Built :
    {B : Type 0} (P : Result B → Type 0) {name : String} {blocks : Bool} {x : Result Check}
    {f : Check → Result B}
    → Built name blocks x
    → ((check : Check) → Verdict name blocks check → P (f check))
    → P (x >>= f)
then-Built P (built check v) k = k check v

pub then-AllBuilt :
    {B : Type 0} (P : Result B → Type 0) {verdicts : List (String × Bool)} {x : Result (List Check)}
    {f : List Check → Result B}
    → AllBuilt verdicts x
    → ((checks : List Check) → Verdicts verdicts checks → P (f checks))
    → P (x >>= f)
then-AllBuilt P (all_built checks v) k = k checks v

pub nonempty : (s : String) → is_empty s ≡ false → s ≢ ""
nonempty s h e = cc ((eq_iff s "").1 e)

pub nonempty_append : (s t : String) → is_empty s ≡ false → s <> t ≢ ""
nonempty_append s t h e = nonempty s h (append-eq-nil_iff.0 e).0

-- A check with an explanation, and one that needs none.
pub explained :
    (repr : String → String) (check : Check)
    → check.cause ≢ ""
    → check.confirm ≢ ""
    → check.fix ≢ ""
    → Built check.name (same_status check.status fail) (build repr check)
explained repr check c d f =
    let actionable : IsActionable check = λ h. (c, d, f) in
    rw ((build_iff repr check).1 actionable) (built check (actionable, refl, refl))

pub unexplained :
    (repr : String → String) (check : Check)
    → is_explained check.status ≡ false
    → Built check.name (same_status check.status fail) (build repr check)
unexplained repr check h =
    let actionable : IsActionable check = λ k. absurd (cc) in
    rw ((build_iff repr check).1 actionable) (built check (actionable, refl, refl))

pub nonempty_append_right : (s t : String) → t ≢ "" → s <> t ≢ ""
nonempty_append_right s t h e = h (append-eq-nil_iff.0 e).1

module _ {name : String} {blocks : Bool} {x y : Result Check} where
  -- A check that applies under a condition only, one that a condition excuses, one that it refutes.
  pub unless-Built :
      (b : Bool)
      → Built name false x
      → Built name blocks y
      → Built name (b && blocks) (if not b then x else y)
  unless-Built true h k = k
  unless-Built false h k = h

  pub excused-Built :
      (b : Bool)
      → Built name false x
      → Built name blocks y
      → Built name (not b && blocks) (if b then x else y)
  excused-Built true h k = h
  excused-Built false h k = k

  pub refuted-Built :
      (b : Bool)
      → Built name true x
      → Built name blocks y
      → Built name (b || blocks) (if b then x else y)
  refuted-Built true h k = h
  refuted-Built false h k = k

-- The same where the last of two cases fails, or passes.
pub excused_else-Built :
    {name : String} {x y : Result Check} (b : Bool)
    → Built name false x
    → Built name true y
    → Built name (not b) (if b then x else y)
excused_else-Built true h k = h
excused_else-Built false h k = k

pub refuted_else-Built :
    {name : String} {x y : Result Check} (b : Bool)
    → Built name true x
    → Built name false y
    → Built name b (if b then x else y)
refuted_else-Built true h k = h
refuted_else-Built false h k = k
