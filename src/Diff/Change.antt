-- ===== src/Diff/Change.antt =====
-- src/pidprobe/_diff.py: one counter, before and after.
use pidprobe.Base.{Option, none, some}
use pidprobe.Base.Int.{ℤ, ◌-ℤ◌}
use pidprobe.Base.Json.{Json, int}

-- The document of one change: its counts, and how far they are apart.
pub record Change : Type 0 where
  pub before : ℤ
  pub after : ℤ
  pub delta : ℤ

change_of : Option ℤ → Option ℤ → Option Change
change_of (some was) (some now) = some (record { before = was; after = now; delta = now -ℤ was })
change_of _ _ = none

module _ {F : Type 0} where
  unfoldable pub as_int : Option (Json F) → Option ℤ
  as_int (some (int n)) = some n
  as_int _ = none

  unfoldable pub change : Option (Json F) → Option (Json F) → Option Change
  unfolding as_int change_of
  change before after = change_of (as_int before) (as_int after)
