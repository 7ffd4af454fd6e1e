-- ===== src/Registry/Names.antt =====
-- The order of names by code points, in which Python sorts texts.
use Prim.Native.Nat.{Ordering}
use Prim.Native.String.compare
use Prim.Native.String.{compare}
use text.Mathlib.TextEquality.{path_by_compare}
use pidprobe.Base.{◌≡◌, String, Bool, true, false, arith}

-- `name <= other`
unfoldable pub at_most : String → String → Bool
at_most name other = elim (compare name other) [ Ordering.gt ↦ false | _ ↦ true ]

pub at_most-total : (s t : String) → at_most s t ≡ false → at_most t s ≡ true
unfolding at_most
at_most-total String.[] String.[] h = ground (arith, compare.nil-nil)
at_most-total String.[] (String.◌∷◌ d t) h = ground (arith, compare.nil-cons d t)
at_most-total (String.◌∷◌ c s) String.[] h = ground (arith, compare.nil-cons c s)
at_most-total (String.◌∷◌ c s) (String.◌∷◌ d t) h =
    ground (arith, compare.cons-cons c d s t, compare.cons-cons d c t s, at_most-total s t)

pub at_most_trans : (s t u : String) → at_most s t ≡ true → at_most t u ≡ true → at_most s u ≡ true
unfolding at_most
at_most_trans String.[] t String.[] h k = ground (arith, compare.nil-nil)
at_most_trans String.[] t (String.◌∷◌ e u) h k = ground (arith, compare.nil-cons e u)
at_most_trans (String.◌∷◌ c s) String.[] u h k = ground (arith, compare.cons-nil c s)
at_most_trans (String.◌∷◌ c s) (String.◌∷◌ d t) String.[] h k = ground (arith, compare.cons-nil d t)
at_most_trans (String.◌∷◌ c s) (String.◌∷◌ d t) (String.◌∷◌ e u) h k = ground (
  arith,
  compare.cons-cons c d s t,
  compare.cons-cons d e t u,
  compare.cons-cons c e s u,
  at_most_trans s t u,
)

compare-eq : (s t : String) → at_most s t ≡ true → at_most t s ≡ true → compare s t ≡ Ordering.eq
unfolding at_most
compare-eq String.[] String.[] h k = ground (arith, compare.nil-nil)
compare-eq String.[] (String.◌∷◌ d t) h k = ground (arith, compare.cons-nil d t)
compare-eq (String.◌∷◌ c s) String.[] h k = ground (arith, compare.cons-nil c s)
compare-eq (String.◌∷◌ c s) (String.◌∷◌ d t) h k =
    ground (arith, compare.cons-cons c d s t, compare.cons-cons d c t s, compare-eq s t)

pub at_most_antisymm : (s t : String) → at_most s t ≡ true → at_most t s ≡ true → s ≡ t
at_most_antisymm s t h k = path_by_compare s t (compare-eq s t h k)
