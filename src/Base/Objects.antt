-- ===== src/Base/Objects.antt =====
-- JSON objects as Python's `dict`: setting keys, and what is found afterwards.
use mathlib.Core.Path.{◌≡◌, refl, ◌∙◌}
use mathlib.Core.Bool.{false, ◌||◌}
use mathlib.Core.Option.{Option, none, some}
use mathlib.Core.List.{List, [], ◌∷◌}
use Prim.Native.String.{String}
use native.Mathlib.Omega.{arith}
use pidprobe.Base.Tests.{◌=ₛ◌, eq_iff, if◌then◌else◌}
use pidprobe.Base.Distinct.{has, AllDistinct}
use pidprobe.Base.Json.{Json, Fields, end, field, get}

module _ {F : Type 0} where
  -- `d[key] = value`
  unfoldable pub insert : String → Json F → Fields F → Fields F
  insert key value end = field key value end
  insert key value (field k v d) =
      let rest = insert key value d in if k =ₛ key then field k value d else field k v rest

  -- `for key, value in items.items(): d[key] = value`
  unfoldable pub update : Fields F → Fields F → Fields F
  update end d = d
  update (field key value items) d = update items (insert key value d)

  abbrev pub keys : Fields F → List String
  keys end = []
  keys (field key value d) = key ∷ keys d

  -- Each key once.
  abbrev pub IsDict : Fields F → Type 0
  IsDict d = AllDistinct (keys d)

  -- `first` if it is there, else `second`.
  abbrev pub or_else : Option (Json F) → Option (Json F) → Option (Json F)
  or_else none second = second
  or_else (some value) second = some value

  pub get-insert :
      (key j : String) (value : Json F) (d : Fields F)
      → get j (insert key value d) ≡ (if key =ₛ j then some value else get j d)
  unfolding get insert
  get-insert key j value end = refl
  get-insert key j value (field k v d) =
      ground (arith, eq_iff key j, eq_iff k key, eq_iff k j, get-insert key j value d)

  has-insert :
      (key j : String) (value : Json F) (d : Fields F)
      → has j (keys (insert key value d)) ≡ ((key =ₛ j) || has j (keys d))
  unfolding insert has
  has-insert key j value end = refl
  has-insert key j value (field k v d) =
      ground (arith, eq_iff key j, eq_iff k key, eq_iff k j, has-insert key j value d)

  pub insert-IsDict :
      (key : String) (value : Json F) (d : Fields F) → IsDict d → IsDict (insert key value d)
  unfolding insert has
  insert-IsDict key value end h = (refl, tt)
  insert-IsDict key value (field k v d) h =
      ground
        (arith, eq_iff k key, eq_iff key k, has-insert key k value d, insert-IsDict key value d h.1)

  get-has : (j : String) (d : Fields F) → has j (keys d) ≡ false → get j d ≡ none
  unfolding get has
  get-has j end h = refl
  get-has j (field k v d) h = ground (arith, get-has j d)

  -- After an update by a dict, each key has the value of the dict, or the one it had.
  pub get-update :
      (j : String) (items d : Fields F)
      → IsDict items
      → get j (update items d) ≡ or_else (get j items) (get j d)
  unfolding get update
  get-update j end d h = refl
  get-update j (field k v items) d h =
      get-update j items (insert k v d) h.1
      ∙ ground (arith, eq_iff k j, get-insert k j v d, get-has j items)
