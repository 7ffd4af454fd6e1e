-- ===== src/Base/Sort.antt =====
-- `sorted(xs, key=...)`: a stable sort, by whether one element may stand before a later one.
use mathlib.Core.Path.{◌≡◌, refl, sym, ap, ◌∙◌}
use mathlib.Core.Logic.{◌↔◌, ◌⊎◌, inl, inr}
use mathlib.Core.Bool.{Bool, true, false}
use mathlib.Core.List.{List, [], ◌∷◌}
use native.Mathlib.Omega.{arith}
use Prim.Native.Nat.{suc}
use pidprobe.Base.Tests.{if◌then◌else◌, Bool-cases}
use pidprobe.Base.Lists.{length, In, All}

-- The second list has the elements of the first, in whatever order.
pub data Reordered {ℓ} {A : Type ℓ} : List A → List A → Type ℓ where
  nil : Reordered [] []
  cons : (x : A) {xs ys : List A} → Reordered xs ys → Reordered (x ∷ xs) (x ∷ ys)
  swap : (x y : A) (xs : List A) → Reordered (x ∷ y ∷ xs) (y ∷ x ∷ xs)
  trans : {xs ys zs : List A} → Reordered xs ys → Reordered ys zs → Reordered xs zs

All-Reordered {ℓ κ} :
    {A : Type ℓ} (P : A → Type κ) {xs ys : List A} → Reordered xs ys → All P xs → All P ys
All-Reordered P nil h = tt
All-Reordered P (cons x d) h = (h.0, All-Reordered P d h.1)
All-Reordered P (swap x y xs) h = (h.1.0, (h.0, h.1.1))
All-Reordered P (trans d f) h = All-Reordered P f (All-Reordered P d h)

module _ {ℓ} {A : Type ℓ} (before : A → A → Bool) where
  place : A → List A → List A
  place x [] = x ∷ []
  place x (y ∷ ys) = let rest = place x ys in if before x y then x ∷ y ∷ ys else y ∷ rest

  unfoldable pub sort : List A → List A
  unfolding place
  sort [] = []
  sort (x ∷ xs) = place x (sort xs)

  abbrev pub IsFirst : A → List A → Type 0
  IsFirst x [] = Unit
  IsFirst x (y ∷ ys) = before x y ≡ true

  -- No element may stand before the one that it follows, unless each may stand before the other.
  abbrev pub IsSorted : List A → Type 0
  IsSorted [] = Unit
  IsSorted (x ∷ xs) = IsFirst x xs × IsSorted xs

  length-place : (x : A) (ys : List A) → length (place x ys) ≡ suc (length ys)
  unfolding place
  length-place x [] = refl
  length-place x (y ∷ ys) = ground (arith, length-place x ys)

  pub length-sort : (xs : List A) → length (sort xs) ≡ length xs
  unfolding sort
  length-sort [] = refl
  length-sort (x ∷ xs) = omega (arith, length-place x (sort xs), length-sort xs)

  module _ (total : (x y : A) → before x y ≡ false → before y x ≡ true) where
    place-IsFirst :
        (w x : A) (ys : List A) → before w x ≡ true → IsFirst w ys → IsFirst w (place x ys)
    unfolding place
    place-IsFirst w x [] h k = h
    place-IsFirst w x (y ∷ ys) h k = elim (Bool-cases (before x y)) [
      | inl e ↦ rw e h
      | inr e ↦ rw e k
    ]

    place-IsSorted : (x : A) (ys : List A) → IsSorted ys → IsSorted (place x ys)
    unfolding place
    place-IsSorted x [] h = (tt, tt)
    place-IsSorted x (y ∷ ys) (f, h) = elim (Bool-cases (before x y)) [
      | inl e ↦ rw e (e, (f, h))
      | inr e ↦ rw e (place-IsFirst y x ys (total x y e) f, place-IsSorted x ys h)
    ]

    pub sort-IsSorted : (xs : List A) → IsSorted (sort xs)
    unfolding sort
    sort-IsSorted [] = tt
    sort-IsSorted (x ∷ xs) = place-IsSorted x (sort xs) (sort-IsSorted xs)

  -- What holds of the elements holds of the sorted ones.
  All-place : (P : A → Type 0) (x : A) (ys : List A) → P x → All P ys → All P (place x ys)
  unfolding place
  All-place P x [] h k = (h, tt)
  All-place P x (y ∷ ys) h k = elim (Bool-cases (before x y)) [
    | inl e ↦ rw e (h, k)
    | inr e ↦ rw e (k.0, All-place P x ys h k.1)
  ]

  pub All-sort : (P : A → Type 0) (xs : List A) → All P xs → All P (sort xs)
  unfolding sort
  All-sort P [] h = tt
  All-sort P (x ∷ xs) h = All-place P x (sort xs) h.0 (All-sort P xs h.1)

  -- No two elements may stand before each other.
  abbrev pub NoTies : List A → Type ℓ
  NoTies [] = Unit
  NoTies (x ∷ xs) = All (λ y. before x y ≡ true → before y x ≡ true → x ≡ y) xs × NoTies xs

  module _ (total : (x y : A) → before x y ≡ false → before y x ≡ true)
      (trans : (x y z : A) → before x y ≡ true → before y z ≡ true → before x z ≡ true) where
    place-place :
        (x y : A) (zs : List A)
        → (before x y ≡ true → before y x ≡ true → x ≡ y)
        → place x (place y zs) ≡ place y (place x zs)
    unfolding place
    place-place x y [] h = ground (arith, total x y, h)
    place-place x y (z ∷ zs) h = ground (
      arith,
      total x y,
      total y x,
      total x z,
      total y z,
      trans x y z,
      trans y x z,
      trans x z y,
      trans y z x,
      h,
      place-place x y zs h,
    )

    NoTies-Reordered : {xs ys : List A} → Reordered xs ys → NoTies xs → NoTies ys
    NoTies-Reordered nil h = tt
    NoTies-Reordered (cons x d) h = (All-Reordered _ d h.0, NoTies-Reordered d h.1)
    NoTies-Reordered (swap x y xs) h = (((λ a b. sym (h.0.0 b a)), h.1.0), (h.0.1, h.1.1))
    NoTies-Reordered (Reordered.trans d f) h = NoTies-Reordered f (NoTies-Reordered d h)

    -- Elements that do not tie are sorted alike, in whatever order they come.
    pub sort-Reordered : {xs ys : List A} → Reordered xs ys → NoTies xs → sort xs ≡ sort ys
    unfolding sort
    sort-Reordered nil h = refl
    sort-Reordered (cons x d) h = ap (place x) (sort-Reordered d h.1)
    sort-Reordered (swap x y xs) h = place-place x y (sort xs) h.0.0
    sort-Reordered (Reordered.trans d f) h =
        sort-Reordered d h ∙ sort-Reordered f (NoTies-Reordered d h)

module _ {A : Type 0} (before : A → A → Bool) where
  In-place : (z x : A) (ys : List A) → In z (place before x ys) ↔ ((z ≡ x) ⊎ In z ys)
  unfolding place
  In-place z x [] = ground arith
  In-place z x (y ∷ ys) = ground (arith, In-place z x ys)

  -- Sorting loses no element and adds none.
  pub In-sort : (z : A) (xs : List A) → In z (sort before xs) ↔ In z xs
  unfolding sort
  In-sort z [] = (λ h. h, λ h. h)
  In-sort z (x ∷ xs) = ground (arith, In-place z x (sort before xs), In-sort z xs)

-- Every element is in the relation to all that follow it.
abbrev pub InOrder {ℓ κ} : {A : Type ℓ} → (A → A → Type κ) → List A → Type κ
InOrder R [] = Unit
InOrder R (x ∷ xs) = All (R x) xs × InOrder R xs

module _ {A : Type 0} (before : A → A → Bool) (R : A → A → Type 0)
    (means : (x y : A) → before x y ≡ true → R x y)
    (trans : (x y z : A) → R x y → R y z → R x z) where
  All-trans : (x y : A) (zs : List A) → R x y → All (R y) zs → All (R x) zs
  All-trans x y [] h k = tt
  All-trans x y (z ∷ zs) h k = (trans x y z h k.0, All-trans x y zs h k.1)

  IsSorted-InOrder : (xs : List A) → IsSorted before xs → InOrder R xs
  IsSorted-InOrder [] h = tt
  IsSorted-InOrder (x ∷ []) h = (tt, tt)
  IsSorted-InOrder (x ∷ y ∷ ys) (f, h) =
      let rest = IsSorted-InOrder (y ∷ ys) h in
      ((means x y f, All-trans x y ys (means x y f) rest.0), rest)

  -- Sorted by a test that decides for one of any two elements, the elements are in the order that the
  -- test means.
  pub sort-InOrder :
      ((x y : A) → before x y ≡ false → before y x ≡ true)
      → (xs : List A) → InOrder R (sort before xs)
  sort-InOrder total xs = IsSorted-InOrder (sort before xs) (sort-IsSorted before total xs)
