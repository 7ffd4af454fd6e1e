-- ===== src/Base/Top.antt =====
-- The first elements of a list in order: `xs[:n]` of what was sorted.
use mathlib.Core.Path.{sym, subst}
use mathlib.Core.Logic.{◌⊎◌, inl, inr}
use mathlib.Core.List.{List, [], ◌∷◌}
use Prim.Native.Nat.{ℕ, zero, suc}
use pidprobe.Base.Lists.{take, All, In}
use pidprobe.Base.Sort.{InOrder}

pub All-take : {A : Type 0} (P : A → Type 0) (n : ℕ) (xs : List A) → All P xs → All P (take n xs)
All-take P zero xs h = tt
All-take P (suc n) [] h = tt
All-take P (suc n) (x ∷ xs) h = (h.0, All-take P n xs h.1)

pub take-InOrder :
    {A : Type 0} (R : A → A → Type 0) (n : ℕ) (xs : List A) → InOrder R xs → InOrder R (take n xs)
take-InOrder R zero xs h = tt
take-InOrder R (suc n) [] h = tt
take-InOrder R (suc n) (x ∷ xs) h = (All-take (R x) n xs h.0, take-InOrder R n xs h.1)

All-In : {A : Type 0} (P : A → Type 0) (z : A) (xs : List A) → All P xs → In z xs → P z
All-In P z [] h i = absurd i
All-In P z (x ∷ xs) h (inl e) = subst P (sym e) h.0
All-In P z (x ∷ xs) h (inr i) = All-In P z xs h.1 i

-- A row that is not taken from rows in order comes after those that are.
pub taken :
    {A : Type 0} (R : A → A → Type 0) (n : ℕ) (z : A) (xs : List A)
    → InOrder R xs
    → In z xs
    → In z (take n xs) ⊎ All (λ x. R x z) (take n xs)
taken R zero z xs h i = inr tt
taken R (suc n) z [] h i = absurd i
taken R (suc n) z (x ∷ xs) h (inl e) = inl (inl e)
taken R (suc n) z (x ∷ xs) h (inr i) = elim (taken R n z xs h.1 i) [
  | inl found ↦ inl (inr found)
  | inr after ↦ inr (All-In (R x) z xs h.0 i, after)
]
