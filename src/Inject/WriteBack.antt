-- ===== src/Inject/WriteBack.antt =====
-- src/pidprobe/_inject.py: `_TEMPFILE_WRITE_BACK`, the write of the target to the file that the prober polls
-- for, in its steps. The prober may read between any two of them. `count` is what `os.write` answers,
-- the number of characters that it took, which the script does not look at.
use pidprobe.Base.{◌≡◌, refl, ◌⊎◌, inl, inr, ℕ, suc, ◌≤◌, String, Option, none, some, arith}
use pidprobe.Base.Steps.{Run, stay, go, Run-keeps, Run-bounded}
use pidprobe.Base.Text.{take}

-- Where the script is.
pub data Phase : Type 0 where
  starting opened written closed replaced given_up : Phase

-- The file under the path with `.tmp`, and the file under the path.
pub record World : Type 0 where
  pub phase : Phase
  pub sibling : Option String
  pub final : Option String

module _ (envelope : String) (count : ℕ) where
  pub data Step : World → World → Type 0 where
    -- `os.open` with O_CREAT and O_TRUNC
    opens :
        (sibling final : Option String)
        → Step
            (record { phase = starting; sibling = sibling; final = final })
            (record { phase = opened; sibling = some ""; final = final })
    writes :
        (final : Option String)
        → Step
            (record { phase = opened; sibling = some ""; final = final })
            (record { phase = written; sibling = some (take count envelope); final = final })
    -- the `finally` block, after the write and after its failure
    closes :
        (sibling final : Option String)
        → Step
            (record { phase = written; sibling = sibling; final = final })
            (record { phase = closed; sibling = sibling; final = final })
    write_fails :
        (sibling final : Option String)
        → Step
            (record { phase = opened; sibling = sibling; final = final })
            (record { phase = given_up; sibling = sibling; final = final })
    open_fails :
        (sibling final : Option String)
        → Step
            (record { phase = starting; sibling = sibling; final = final })
            (record { phase = given_up; sibling = sibling; final = final })
    replace_fails :
        (sibling final : Option String)
        → Step
            (record { phase = closed; sibling = sibling; final = final })
            (record { phase = given_up; sibling = sibling; final = final })
    replaces :
        (text : String) (final : Option String)
        → Step
            (record { phase = closed; sibling = some text; final = final })
            (record { phase = replaced; sibling = none; final = some text })

  abbrev pub before : World
  before = record { phase = starting; sibling = none; final = none }

  -- What was taken of the envelope is all that the files hold, at the steps at which they hold it.
  abbrev HeldAt : Phase → (sibling final : Option String) → Type 0
  HeldAt starting sibling final = final ≡ none
  HeldAt opened sibling final = (sibling ≡ some "") × (final ≡ none)
  HeldAt written sibling final = (sibling ≡ some (take count envelope)) × (final ≡ none)
  HeldAt closed sibling final = (sibling ≡ some (take count envelope)) × (final ≡ none)
  HeldAt replaced sibling final = final ≡ some (take count envelope)
  HeldAt given_up sibling final = final ≡ none

  abbrev IsHeld : World → Type 0
  IsHeld w = HeldAt w.phase w.sibling w.final

  Step-IsHeld : (v w : World) → Step v w → IsHeld v → IsHeld w
  Step-IsHeld v w (opens sibling final) h = (refl, h)
  Step-IsHeld v w (writes final) h = (refl, h.1)
  Step-IsHeld v w (closes sibling final) h = h
  Step-IsHeld v w (write_fails sibling final) h = h.1
  Step-IsHeld v w (open_fails sibling final) h = h
  Step-IsHeld v w (replace_fails sibling final) h = h.1
  Step-IsHeld v w (replaces text final) h = h.0

  abbrev left_at : Phase → ℕ
  left_at starting = 4
  left_at opened = 3
  left_at written = 2
  left_at closed = 1
  left_at replaced = 0
  left_at given_up = 0

  abbrev left : World → ℕ
  left w = left_at w.phase

  Step-left : (v w : World) → Step v w → suc (left w) ≤ left v
  Step-left v w (opens sibling final) = omega arith
  Step-left v w (writes final) = omega arith
  Step-left v w (closes sibling final) = omega arith
  Step-left v w (write_fails sibling final) = omega arith
  Step-left v w (open_fails sibling final) = omega arith
  Step-left v w (replace_fails sibling final) = omega arith
  Step-left v w (replaces text final) = omega arith

  HeldAt-final :
      (phase : Phase) (sibling final : Option String)
      → HeldAt phase sibling final
      → (final ≡ none) ⊎ (final ≡ some (take count envelope))
  HeldAt-final starting sibling final h = inl h
  HeldAt-final opened sibling final h = inl h.1
  HeldAt-final written sibling final h = inl h.1
  HeldAt-final closed sibling final h = inl h.1
  HeldAt-final replaced sibling final h = inr h
  HeldAt-final given_up sibling final h = inl h

  -- Whenever the prober looks, after any steps of the script, there is no file under the path or all of
  -- what `os.write` took of the envelope; and the script has ended after at most four steps.
  pub Run-final :
      (n : ℕ) (w : World)
      → Run Step n before w
      → ((w.final ≡ none) ⊎ (w.final ≡ some (take count envelope))) × (n ≤ 4)
  Run-final n w r =
      let bounded = Run-bounded Step left Step-left r in
      (
        HeldAt-final w.phase w.sibling w.final (Run-keeps Step IsHeld Step-IsHeld r refl),
        omega (arith, bounded),
      )

  -- If opening, writing and renaming do not fail, the file is under the path after four steps: all that
  -- `os.write` took, even if that is less than the envelope.
  pub Run-replaced :
      Run Step 4 before
        (record { phase = replaced; sibling = none; final = some (take count envelope) })
  Run-replaced = go (opens none none) (
      go (writes none) (
        go (closes (some (take count envelope)) none)
          (go (replaces (take count envelope) none) (stay _))))
