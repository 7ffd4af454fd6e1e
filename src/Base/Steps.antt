-- ===== src/Base/Steps.antt =====
-- Runs of a step relation.
use Prim.Native.Nat.{ℕ, suc, ◌+◌, ◌≤◌}
use native.Mathlib.Omega.{arith}

module _ {A : Type 0} (Step : A → A → Type 0) where
  pub data Run : ℕ → A → A → Type 0 where
    stay : (a : A) → Run 0 a a
    go : {n : ℕ} {a b c : A} → Step a b → Run n b c → Run (suc n) a c

  -- What a step keeps, a run keeps.
  pub Run-keeps :
      (P : A → Type 0)
      → ((a b : A) → Step a b → P a → P b)
      → {n : ℕ} {a b : A} → Run n a b
      → P a
      → P b
  Run-keeps P h (stay a) p = p
  Run-keeps P h (go {a = a} {b = b} s r) p = Run-keeps P h r (h a b s p)

  -- A run is no longer than the measure that each step takes from.
  pub Run-bounded :
      (measure : A → ℕ)
      → ((a b : A) → Step a b → suc (measure b) ≤ measure a)
      → {n : ℕ} {a b : A} → Run n a b
      → n + measure b ≤ measure a
  Run-bounded measure h (stay a) = omega arith
  Run-bounded measure h (go {a = a} {b = b} s r) =
      let rest = Run-bounded measure h r in omega (arith, h a b s, rest)
