-- ===== src/Base/Json.antt =====
-- What `json.loads` returns: JSON documents as Python values. A float is a value of an unknown type.
use Prim.Native.String.{String}
use mathlib.Core.Bool.{Bool}
use mathlib.Core.Option.{Option, none, some}
use pidprobe.Base.Tests.{◌=ₛ◌, if◌then◌else◌}
use pidprobe.Base.Int.{ℤ}

mutual
  pub data Json (F : Type 0) : Type 0 where
    null : Json F
    bool : Bool → Json F
    int : ℤ → Json F
    float : F → Json F
    str : String → Json F
    arr : Items F → Json F
    obj : Fields F → Json F

  pub data Items (F : Type 0) : Type 0 where
    nil : Items F
    cons : Json F → Items F → Items F

  -- A `dict`, its keys in insertion order.
  pub data Fields (F : Type 0) : Type 0 where
    end : Fields F
    field : String → Json F → Fields F → Fields F

-- `d.get(key)`
unfoldable pub get : {F : Type 0} → String → Fields F → Option (Json F)
get key end = none
get key (field k v d) = if k =ₛ key then some v else get key d
