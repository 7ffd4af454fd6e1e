-- ===== src/Diff/Types.antt =====
-- src/pidprobe/_diff.py: `_counts_by_type` and `_type_deltas`. A dict of counts is an association list.
use Prim.Native.Nat.{Ordering}
use Prim.Native.String.{compare}
use pidprobe.Base.{
  String, ◌<>◌, Bool, true, false, Option, none, some, List, [], ◌∷◌, ◌++◌, map, if◌then◌else◌,
}
use pidprobe.Base.Int.{ℤ, pos, ◌-ℤ◌, ltb_ℤ, eqb_ℤ}
use pidprobe.Base.Dict.{Dict, insert, lookup}
use pidprobe.Base.Json.{Json, bool, int, float, str, arr, obj, Items, nil, cons, Fields, get}
use pidprobe.Errors.{Result, ok, raised, python, type_error}
use pidprobe.Diff.Change.{as_int}

-- A row of the ranking.
pub record TypeDelta : Type 0 where
  pub label : String
  pub before : Option ℤ
  pub after : Option ℤ
  pub delta : ℤ

not_iterable : String → Result (Dict ℤ)
not_iterable name =
    raised (python type_error "TypeError" ("'" <> (name <> "' object is not iterable")))

module _ {F : Type 0} where
  counted : Option (Json F) → Option ℤ → Dict ℤ → Dict ℤ
  counted (some (str label)) (some count) counts = insert label count counts
  counted _ _ counts = counts

  unfoldable pub count_entries : Items F → Dict ℤ → Dict ℤ
  unfolding counted as_int
  count_entries nil counts = counts
  count_entries (cons (obj entry) items) counts =
      count_entries items (counted (get "type" entry) (as_int (get "count" entry)) counts)
  count_entries (cons _ items) counts = count_entries items counts

  -- `for entry in section.get("top") or ()`: the keys of a dict and the letters of a text are no rows,
  -- and a value that is not iterable raises unless it is falsy.
  counts_of : (F → Bool) → Option (Json F) → Result (Dict ℤ)
  unfolding count_entries not_iterable
  counts_of is_zero (some (arr items)) = ok (count_entries items [])
  counts_of is_zero (some (bool true)) = not_iterable "bool"
  counts_of is_zero (some (int n)) = if eqb_ℤ n (pos 0) then ok [] else not_iterable "int"
  counts_of is_zero (some (float x)) = if is_zero x then ok [] else not_iterable "float"
  counts_of is_zero _ = ok []

  unfoldable pub counts_by_type : (F → Bool) → Fields F → Result (Dict ℤ)
  unfolding counts_of
  counts_by_type is_zero section = counts_of is_zero (get "top" section)

abbrev pub or_zero : Option ℤ → ℤ
or_zero none = pos 0
or_zero (some n) = n

-- The row of one label, in a list; none for a count that did not move.
unfoldable pub row : Dict ℤ → Dict ℤ → String → List TypeDelta
row before after label =
    let was = lookup label before in
    let now = lookup label after in
    let delta = or_zero now -ℤ or_zero was in
    if eqb_ℤ delta (pos 0)
    then []
    else record { label = label; before = was; after = now; delta = delta } ∷ []

-- `before.keys() | after.keys()`, in an order: Python iterates over the set in an unspecified one.
unfoldable pub without : Dict ℤ → Dict ℤ → List String
without before [] = []
without before ((label, count) ∷ after) =
    let rest = without before after in
    elim (lookup label before) [ none ↦ label ∷ rest | some n ↦ rest ]

unfoldable pub labels : Dict ℤ → Dict ℤ → List String
unfolding without
labels before after = map (λ (label, count). label) before ++ without before after

-- `key(x) <= key(y)` for the key `(-delta, type)`
unfoldable pub ranks_before : TypeDelta → TypeDelta → Bool
ranks_before x y =
    if ltb_ℤ y.delta x.delta
    then true
    else if ltb_ℤ x.delta y.delta
    then false
    else elim (compare x.label y.label) [ Ordering.gt ↦ false | _ ↦ true ]

-- `ranked.sort(key=...)`, which is stable.
unfoldable pub place : TypeDelta → List TypeDelta → List TypeDelta
place x [] = x ∷ []
place x (y ∷ rest) =
    let later = place x rest in if ranks_before x y then x ∷ y ∷ rest else y ∷ later

unfoldable pub sort : List TypeDelta → List TypeDelta
unfolding place
sort [] = []
sort (x ∷ rest) = place x (sort rest)

unfoldable pub rows : Dict ℤ → Dict ℤ → List String → List TypeDelta
unfolding row
rows before after [] = []
rows before after (label ∷ more) = row before after label ++ rows before after more

-- For the labels in the order in which the set of them is walked.
unfoldable pub ranked : Dict ℤ → Dict ℤ → List String → List TypeDelta
unfolding rows sort
ranked before after order = sort (rows before after order)

unfoldable pub type_deltas : Dict ℤ → Dict ℤ → List TypeDelta
unfolding ranked labels
type_deltas before after = ranked before after (labels before after)
