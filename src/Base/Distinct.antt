-- ===== src/Base/Distinct.antt =====
-- Names without repetition: what Python asks of a `set` of texts.
use Prim.Native.Nat.{◌≤◌}
use Prim.Native.String.{String}
use mathlib.Core.Path.{◌≡◌}
use mathlib.Core.Logic.{◌↔◌}
use mathlib.Core.Bool.{Bool, true, false, ◌||◌}
use mathlib.Core.List.{List, [], ◌∷◌}
use native.Mathlib.Omega.{arith}
use pidprobe.Base.Tests.{◌=ₛ◌, eq_iff, if◌then◌else◌}
use pidprobe.Base.Lists.{length, In}

-- `name in names`
unfoldable pub has : String → List String → Bool
has name [] = false
has name (other ∷ names) = (other =ₛ name) || has name names

-- `set(names)`, each name once.
unfoldable pub distinct : List String → List String
distinct [] = []
distinct (name ∷ names) = let rest = distinct names in if has name names then rest else name ∷ rest

abbrev pub AllDistinct : List String → Type 0
AllDistinct [] = Unit
AllDistinct (name ∷ names) = (has name names ≡ false) × AllDistinct names

pub has_iff : (name : String) (names : List String) → (has name names ≡ true) ↔ In name names
unfolding has
has_iff name [] = ground arith
has_iff name (other ∷ names) = ground (arith, eq_iff other name, has_iff name names)

length-distinct : (names : List String) → length (distinct names) ≤ length names
unfolding distinct
length-distinct [] = omega arith
length-distinct (name ∷ names) = ground (arith, length-distinct names)

-- A set of names has as many elements as there are names exactly if none is repeated.
pub distinct_iff :
    (names : List String) → (length (distinct names) ≡ length names) ↔ AllDistinct names
unfolding distinct
distinct_iff [] = ground arith
distinct_iff (name ∷ names) = ground (arith, length-distinct names, distinct_iff names)
