-- ===== src/Collectors/Objects/Counts.antt =====
-- src/pidprobe/collectors/_objects.py: every object is counted once, under its label.
use pidprobe.Base.{
  ◌≡◌, refl, ap, sym, ◌≤◌, ◌⊎◌, inl, inr, Bool-cases, not, ◌&&◌, In, ◌∙◌, ℕ, suc, ◌+◌, min, String,
  true, false, ◌||◌, List, [], ◌∷◌, All, length, length-take, ◌=ₛ◌, eq_iff, if◌then◌else◌, arith,
}
use pidprobe.Base.Dict.{Dict}
use pidprobe.Base.Distinct.{has, distinct, AllDistinct}
use pidprobe.Base.Top.{All-take, take-InOrder, taken}
use pidprobe.Base.Sort.{sort, InOrder, sort-InOrder, In-sort, All-sort, length-sort}
use pidprobe.Collectors.Objects.{Objects, top_n, bump, tally, total, goes_before, count_objects}

-- How often a label occurs.
abbrev pub occurrences : String → List String → ℕ
occurrences label [] = 0
occurrences label (other ∷ labels) =
    let rest = occurrences label labels in if other =ₛ label then suc rest else rest

-- The count of a label, 0 if it has none.
abbrev pub count_of : String → Dict ℕ → ℕ
count_of label [] = 0
count_of label ((other, n) ∷ counts) =
    let rest = count_of label counts in if other =ₛ label then n else rest

abbrev labels_of : Dict ℕ → List String
labels_of [] = []
labels_of ((label, n) ∷ counts) = label ∷ labels_of counts

total-bump : (label : String) (counts : Dict ℕ) → total (bump label counts) ≡ suc (total counts)
unfolding total bump
total-bump label [] = refl
total-bump label ((other, n) ∷ counts) = ground (arith, total-bump label counts)

total-tally :
    (labels : List String) (counts : Dict ℕ)
    → total (tally labels counts) ≡ length labels + total counts
unfolding tally
total-tally [] counts = omega arith
total-tally (label ∷ labels) counts =
    omega (arith, total-tally labels (bump label counts), total-bump label counts)

count_of-bump :
    (label other : String) (counts : Dict ℕ)
    → count_of other (bump label counts) ≡ count_of other counts + (if label =ₛ other then 1 else 0)
unfolding bump
count_of-bump label other [] = ground arith
count_of-bump label other ((key, n) ∷ counts) = ground (
  arith,
  eq_iff key other,
  eq_iff key label,
  eq_iff label other,
  count_of-bump label other counts,
)

count_of-tally :
    (other : String) (labels : List String) (counts : Dict ℕ)
    → count_of other (tally labels counts) ≡ occurrences other labels + count_of other counts
unfolding tally
count_of-tally other [] counts = omega arith
count_of-tally other (label ∷ labels) counts =
    ground
      (arith, count_of-tally other labels (bump label counts), count_of-bump label other counts)

has-bump :
    (label other : String) (counts : Dict ℕ)
    → has other (labels_of (bump label counts)) ≡ ((label =ₛ other) || has other (labels_of counts))
unfolding bump has
has-bump label other [] = refl
has-bump label other ((key, n) ∷ counts) =
    ground
      (arith, eq_iff key other, eq_iff key label, eq_iff label other, has-bump label other counts)

bump-AllDistinct :
    (label : String) (counts : Dict ℕ)
    → AllDistinct (labels_of counts)
    → AllDistinct (labels_of (bump label counts))
unfolding bump has
bump-AllDistinct label [] h = (refl, tt)
bump-AllDistinct label ((key, n) ∷ counts) h = ground (
  arith,
  eq_iff key label,
  eq_iff label key,
  has-bump label key counts,
  bump-AllDistinct label counts h.1,
)

tally-AllDistinct :
    (labels : List String) (counts : Dict ℕ)
    → AllDistinct (labels_of counts)
    → AllDistinct (labels_of (tally labels counts))
unfolding tally
tally-AllDistinct [] counts h = h
tally-AllDistinct (label ∷ labels) counts h =
    tally-AllDistinct labels (bump label counts) (bump-AllDistinct label counts h)

-- Rows that come later are found behind others.
behind :
    (key : String) (n : ℕ) (counts rows : Dict ℕ)
    → has key (labels_of rows) ≡ false
    → All (λ (label, m). m ≡ count_of label counts) rows
    → All (λ (label, m). m ≡ count_of label ((key, n) ∷ counts)) rows
unfolding has
behind key n counts [] h k = tt
behind key n counts ((label, m) ∷ rows) h k = (
  ground (arith, eq_iff key label, eq_iff label key, k.0),
  behind key n counts rows (ground arith) k.1,
)

counted :
    (counts : Dict ℕ)
    → AllDistinct (labels_of counts)
    → All (λ (label, m). m ≡ count_of label counts) counts
counted [] h = tt
counted ((label, n) ∷ counts) h =
    (ground (arith, eq_iff label label), behind label n counts counts h.0 (counted counts h.1))

All-counts :
    (labels : List String) (counts rows : Dict ℕ)
    → ((label : String) → count_of label counts ≡ occurrences label labels)
    → All (λ (label, m). m ≡ count_of label counts) rows
    → All (λ (label, m). m ≡ occurrences label labels) rows
All-counts labels counts [] h k = tt
All-counts labels counts ((label, m) ∷ rows) h k =
    (k.0 ∙ h label, All-counts labels counts rows h k.1)

goes_before-total : (x y : String × ℕ) → goes_before x y ≡ false → goes_before y x ≡ true
unfolding goes_before
goes_before-total (label, n) (other, m) h = ground arith

-- The count of the other row is not greater.
abbrev pub Outnumbers : String × ℕ → String × ℕ → Type 0
Outnumbers (label, n) (other, m) = m ≤ n

goes_before-Outnumbers : (x y : String × ℕ) → goes_before x y ≡ true → Outnumbers x y
unfolding goes_before
goes_before-Outnumbers (label, n) (other, m) h = ground arith

falling : (counts : Dict ℕ) → InOrder Outnumbers (sort goes_before counts)
falling counts =
    sort-InOrder goes_before Outnumbers goes_before-Outnumbers (λ x y z h k. omega arith)
      goes_before-total counts

-- A label that occurs has its row.
In-count :
    (label : String) (n : ℕ) (counts : Dict ℕ)
    → count_of label counts ≡ suc n
    → In (label, suc n) counts
In-count label n [] h = ground (arith, h)
In-count label n ((other, m) ∷ counts) h = elim (Bool-cases (other =ₛ label)) [
  | inl e ↦
      let same : other ≡ label = (eq_iff other label).0 e in
      let found : m ≡ suc n = rw e at h in inl (λ i. (sym same i, sym found i))
  | inr e ↦ inr (In-count label n counts (rw e at h))
]

length-bump :
    (label : String) (counts : Dict ℕ)
    → length (bump label counts) ≡ (if has label (labels_of counts) then 0 else 1) + length counts
unfolding bump has
length-bump label [] = refl
length-bump label ((other, n) ∷ counts) = ground (arith, length-bump label counts)

-- How many labels are new, beside those of the counts.
abbrev news : List String → Dict ℕ → ℕ
news [] counts = 0
news (label ∷ labels) counts =
    let rest = news labels counts in
    if has label labels || has label (labels_of counts) then rest else suc rest

news-bump :
    (label : String) (labels : List String) (counts : Dict ℕ)
    → news labels (bump label counts)
        + (if has label labels && not (has label (labels_of counts)) then 1 else 0)
      ≡ news labels counts
unfolding has
news-bump label [] counts = refl
news-bump label (other ∷ labels) counts = ground (
  arith,
  eq_iff other label,
  eq_iff label other,
  has-bump label other counts,
  news-bump label labels counts,
)

length-tally :
    (labels : List String) (counts : Dict ℕ)
    → length (tally labels counts) ≡ news labels counts + length counts
unfolding tally
length-tally [] counts = omega arith
length-tally (label ∷ labels) counts = ground (
  arith,
  length-tally labels (bump label counts),
  length-bump label counts,
  news-bump label labels counts,
)

news-distinct : (labels : List String) → news labels [] ≡ length (distinct labels)
unfolding has distinct
news-distinct [] = refl
news-distinct (label ∷ labels) = ground (arith, news-distinct labels)

-- What the section says of the objects with these labels.
abbrev pub IsCount : List String → Objects → Type 0
IsCount labels objects =
    (objects.total_tracked ≡ length labels)
    × (objects.distinct_types ≡ length (distinct labels))
    × All (λ (label, n). n ≡ occurrences label labels) objects.top
    × InOrder Outnumbers objects.top
    × (length objects.top ≡ min top_n (length (distinct labels)))
    × ((label : String) (n : ℕ)
        → occurrences label labels ≡ suc n
        → In (label, suc n) objects.top ⊎ All (λ (other, m). suc n ≤ m) objects.top)

-- The total is the number of objects, and the number of types that of the different labels; each row of
-- the top has the number of the objects of its label; the rows are by falling count, and there are 50
-- or, if there are fewer labels, one for each; and a label that has no row has no more objects than any
-- that has one.
pub count_objects_lem : (labels : List String) → IsCount labels (count_objects labels)
unfolding count_objects total
count_objects_lem labels =
    let counts = tally labels [] in
    let exact : (label : String) → count_of label counts ≡ occurrences label labels =
      λ label. count_of-tally label labels [] ∙ omega arith in
    let types : length counts ≡ length (distinct labels) =
      length-tally labels [] ∙ omega (arith, news-distinct labels) in
    let rows =
      All-counts labels counts counts exact (counted counts (tally-AllDistinct labels [] tt)) in
    (
      total-tally labels [] ∙ omega arith,
      types,
      All-take _ top_n _ (All-sort goes_before _ counts rows),
      take-InOrder Outnumbers top_n _ (falling counts),
      length-take top_n (sort goes_before counts)
          ∙ ap (min top_n) (length-sort goes_before counts ∙ types),
      λ label n h.
          taken Outnumbers top_n (label, suc n) (sort goes_before counts) (falling counts)
            ((In-sort goes_before (label, suc n) counts).1
              (In-count label n counts (exact label ∙ h))),
    )
