-- ===== src/Diff/Ranking.antt =====
-- src/pidprobe/_diff.py: the ranking holds a row for every type that moved, in order.
use Prim.Native.Nat.{Ordering}
use Prim.Native.String.compare
use Prim.Native.String.{compare}
use pidprobe.Base.{
  ◌≡◌, ◌≢◌, ◌↔◌, ◌⊎◌, refl, ◌∙◌, inl, inr, String, true, false, Bool-cases, Option, none, some,
  List, [], ◌∷◌, map, In, In-append, eq_iff, arith,
}
use pidprobe.Base.Int.{ℤ, pos, ◌-ℤ◌, eqb_ℤ, ltb_ℤ, eq_of_parts}
use pidprobe.Base.Dict.{Dict, lookup}
use pidprobe.Diff.Types.{
  TypeDelta, or_zero, row, without, labels, ranks_before, place, sort, rows, ranked, type_deltas,
}

abbrev IsFirst : TypeDelta → List TypeDelta → Type 0
IsFirst x [] = Unit
IsFirst x (y ∷ rest) = ranks_before x y ≡ true

-- Each row may stand before the next.
abbrev IsSorted : List TypeDelta → Type 0
IsSorted [] = Unit
IsSorted (x ∷ rest) = IsFirst x rest × IsSorted rest

-- The count of the first type grew by more, or by the same and its label does not come later.
abbrev pub RanksBefore : TypeDelta → TypeDelta → Type 0
RanksBefore x y =
    (ltb_ℤ y.delta x.delta ≡ true) ⊎ ((x.delta ≡ y.delta) × (compare x.label y.label ≢ Ordering.gt))

-- Each row ranks before the next.
abbrev pub IsRanked : List TypeDelta → Type 0
IsRanked [] = Unit
IsRanked (x ∷ []) = Unit
IsRanked (x ∷ y ∷ rest) = RanksBefore x y × IsRanked (y ∷ rest)

ranks_before-RanksBefore : (x y : TypeDelta) → ranks_before x y ≡ true → RanksBefore x y
unfolding ranks_before
ranks_before-RanksBefore x y h = ground (arith, eq_of_parts x.delta y.delta)

IsSorted-IsRanked : (xs : List TypeDelta) → IsSorted xs → IsRanked xs
IsSorted-IsRanked [] h = tt
IsSorted-IsRanked (x ∷ []) h = tt
IsSorted-IsRanked (x ∷ y ∷ rest) h =
    (ranks_before-RanksBefore x y h.0, IsSorted-IsRanked (y ∷ rest) h.1)

compare-gt : (s t : String) → compare s t ≡ Ordering.gt → compare t s ≢ Ordering.gt
compare-gt String.[] String.[] h k = ground (arith, compare.nil-nil)
compare-gt String.[] (String.◌∷◌ d t) h k = ground (arith, compare.nil-cons d t)
compare-gt (String.◌∷◌ c s) String.[] h k = ground (arith, compare.nil-cons c s)
compare-gt (String.◌∷◌ c s) (String.◌∷◌ d t) h k =
    ground (arith, compare.cons-cons c d s t, compare.cons-cons d c t s, compare-gt s t)

-- Of two rows, one ranks before the other.
ranks_before-total : (x y : TypeDelta) → ranks_before x y ≡ false → ranks_before y x ≡ true
unfolding ranks_before
ranks_before-total x y h = ground (arith, compare-gt x.label y.label)

place-IsFirst :
    (w x : TypeDelta) (rest : List TypeDelta)
    → ranks_before w x ≡ true
    → IsFirst w rest
    → IsFirst w (place x rest)
unfolding place
place-IsFirst w x [] h k = h
place-IsFirst w x (y ∷ rest) h k = ground arith

place-IsSorted : (x : TypeDelta) (rest : List TypeDelta) → IsSorted rest → IsSorted (place x rest)
unfolding place
place-IsSorted x [] h = (tt, tt)
place-IsSorted x (y ∷ rest) (f, h) = elim (Bool-cases (ranks_before x y)) [
  | inl e ↦ rw e (e, (f, h))
  | inr e ↦ rw e (place-IsFirst y x rest (ranks_before-total x y e) f, place-IsSorted x rest h)
]

sort-IsSorted : (xs : List TypeDelta) → IsSorted (sort xs)
unfolding sort
sort-IsSorted [] = tt
sort-IsSorted (x ∷ rest) = place-IsSorted x (sort rest) (sort-IsSorted rest)

-- Whatever the order in which the labels are walked, each row of the ranking grew by more than the next,
-- or by the same and its label does not come later.
pub ranked-IsRanked :
    (before after : Dict ℤ) (order : List String) → IsRanked (ranked before after order)
unfolding ranked
ranked-IsRanked before after order =
    IsSorted-IsRanked (sort (rows before after order)) (sort-IsSorted (rows before after order))

In-place : (z x : TypeDelta) (rest : List TypeDelta) → In z (place x rest) ↔ ((z ≡ x) ⊎ In z rest)
unfolding place
In-place z x [] = ground arith
In-place z x (y ∷ rest) = ground (arith, In-place z x rest)

In-sort : (z : TypeDelta) (xs : List TypeDelta) → In z (sort xs) ↔ In z xs
unfolding sort
In-sort z [] = (λ h. h, λ h. h)
In-sort z (x ∷ rest) = ground (arith, In-place z x (sort rest), In-sort z rest)

-- What a row of the ranking says: the counts of its label, missing ones none, and how far they are
-- apart, which is not 0.
abbrev pub IsRow : Dict ℤ → Dict ℤ → TypeDelta → Type 0
IsRow before after x =
    (x.before ≡ lookup x.label before)
    × (x.after ≡ lookup x.label after)
    × (x.delta ≡ or_zero x.after -ℤ or_zero x.before)
    × (x.delta ≢ pos 0)

eqb_zero : (n : ℤ) → eqb_ℤ n (pos 0) ≡ true → n ≡ pos 0
eqb_zero n h = eq_of_parts n (pos 0) (ground arith)

moved :
    (before after : Dict ℤ) (label : String) (x : TypeDelta)
    → IsRow before after x
    → x.label ≡ label
    → x.delta ≡ or_zero (lookup label after) -ℤ or_zero (lookup label before)
moved before after label x r l = r.2 ∙ cc (r.0, r.1, l)

In-row :
    (before after : Dict ℤ) (label : String) (x : TypeDelta)
    → In x (row before after label) ↔ (IsRow before after x × (x.label ≡ label))
unfolding row
In-row before after label x =
    let delta = or_zero (lookup label after) -ℤ or_zero (lookup label before) in
    let zero = eqb_zero delta in
    elim (Bool-cases (eqb_ℤ delta (pos 0))) [
      | inl e ↦
          rw e (λ h. absurd h, λ (r, l). absurd (r.3 (moved before after label x r l ∙ zero e)))
      | inr e ↦ rw e (
        λ h. elim h [
          | inl i ↦ rw i ((refl, refl, refl, λ z. ground (arith, z)), refl)
          | inr n ↦ absurd n
        ],
        λ (r, l). inl (cc),
      )
    ]

In-keys :
    (label : String) (counts : Dict ℤ)
    → lookup label counts ≢ none
    → In label (map (λ (key, count). key) counts)
unfolding lookup
In-keys label [] h = absurd (h refl)
In-keys label ((key, count) ∷ counts) h = ground (arith, eq_iff key label, In-keys label counts)

In-without :
    (label : String) (before after : Dict ℤ)
    → lookup label before ≡ none
    → lookup label after ≢ none
    → In label (without before after)
unfolding lookup without
In-without label before [] h k = absurd (k refl)
In-without label before ((key, count) ∷ after) h k =
    ground (arith, eq_iff key label, In-without label before after)

-- Every label with a count on some side is among the labels.
In-labels :
    (before after : Dict ℤ) (label : String)
    → (lookup label before ≢ none) ⊎ (lookup label after ≢ none)
    → In label (labels before after)
unfolding labels
In-labels before after label h =
    let first = In-append label (map (λ (key, count). key) before) (without before after) in
    ground (arith, first, h, In-keys label before, In-without label before after)

In-rows :
    (before after : Dict ℤ) (order : List String) (x : TypeDelta)
    → In x (rows before after order) ↔ (IsRow before after x × In x.label order)
unfolding rows
In-rows before after [] x = ground arith
In-rows before after (label ∷ order) x = ground (
  arith,
  In-append x (row before after label) (rows before after order),
  In-row before after label x,
  In-rows before after order x,
)

moved_counted :
    (was now : Option ℤ) → or_zero now -ℤ or_zero was ≢ pos 0 → (was ≢ none) ⊎ (now ≢ none)
unfolding ◌-ℤ◌
moved_counted (some n) now h = inl (λ e. ground (arith, e))
moved_counted none (some n) h = inr (λ e. ground (arith, e))
moved_counted none none h = absurd (h refl)

row-counted :
    (before after : Dict ℤ) (x : TypeDelta)
    → IsRow before after x
    → (lookup x.label before ≢ none) ⊎ (lookup x.label after ≢ none)
row-counted before after x r =
    moved_counted (lookup x.label before) (lookup x.label after)
      (λ e. r.3 (moved before after x.label x r refl ∙ e))

-- The deltas of the types hold a row exactly for each type whose counts, a missing one counted as 0,
-- are not the same, and it carries the counts of both sides and their difference.
pub type_deltas_iff :
    (before after : Dict ℤ) (x : TypeDelta) → In x (type_deltas before after) ↔ IsRow before after x
unfolding type_deltas ranked
type_deltas_iff before after x =
    let all = labels before after in
    let sorted = In-sort x (rows before after all) in
    let found = In-rows before after all x in
    (
      λ h. (found.0 (sorted.0 h)).0,
      λ r. sorted.1 (found.1 (r, In-labels before after x.label (row-counted before after x r))),
    )
