-- ===== src/Base/Text.antt =====
-- Python's `str` as the native `String`: a list of code points. Lone surrogates, which a Python
-- `str` may hold, are no `Char`.
use Prim.Native.Nat.{ℕ, zero, suc, min}
use Prim.Native.String.{String, ◌++◌ as ◌<>◌, count}
use mathlib.Core.Path.{◌≡◌}
use mathlib.Core.Bool.{Bool, ◌||◌}
use mathlib.Core.List.{List, [], ◌∷◌}
use native.Mathlib.Omega.{arith}
use text.Mathlib.Text.{starts_with}
use text.Mathlib.TextLemmas.{length-cons, nil-append, cons-append, append-nil}
use text.Mathlib.TextPositions.{starts_with-append}
use mathlib.Core.Path.{subst}
use mathlib.Core.Bool.{true, or-true}
use Prim.Native.Char.{code}
use mathlib.Core.Path.{refl, ap}
use mathlib.Core.List.{◌++◌}
use pidprobe.Base.Lists.{length}

-- `text[:n]`
unfoldable pub take : ℕ → String → String
take zero s = String.[]
take (suc n) String.[] = String.[]
take (suc n) (String.◌∷◌ c s) = String.◌∷◌ c (take n s)

pub count-take : (n : ℕ) (s : String) → count (take n s) ≡ min n (count s)
unfolding take
count-take zero s = omega arith
count-take (suc n) String.[] = omega arith
count-take (suc n) (String.◌∷◌ c s) =
    omega (arith, length-cons c (take n s), length-cons c s, count-take n s)

-- `sep.join(parts)`
unfoldable pub join : String → List String → String
join sep [] = String.[]
join sep (p ∷ []) = p
join sep (p ∷ q ∷ ps) = p <> (sep <> join sep (q ∷ ps))

-- `t in s`
unfoldable pub contains : String → String → Bool
contains t String.[] = starts_with String.[] t
contains t (String.◌∷◌ c s) = starts_with (String.◌∷◌ c s) t || contains t s

-- The code points of a text.
abbrev pub codes : String → List ℕ
codes String.[] = []
codes (String.◌∷◌ c s) = code c ∷ codes s

pub codes-append : (s t : String) → codes (s <> t) ≡ codes s ++ codes t
codes-append String.[] t = rw nil-append
codes-append (String.◌∷◌ c s) t = rw cons-append (ap (λ r. code c ∷ r) (codes-append s t))

pub count-eq-length : (s : String) → count s ≡ length (codes s)
count-eq-length String.[] = refl
count-eq-length (String.◌∷◌ c s) = omega (arith, length-cons c s, count-eq-length s)

contains_of_starts_with : (t s : String) → starts_with s t ≡ true → contains t s ≡ true
unfolding contains
contains_of_starts_with t String.[] h = h
contains_of_starts_with t (String.◌∷◌ c s) h = rw h

pub contains-middle : (t s r : String) → contains t (s <> (t <> r)) ≡ true
unfolding contains
contains-middle t String.[] r =
    rw nil-append (contains_of_starts_with t (t <> r) (starts_with-append t r))
contains-middle t (String.◌∷◌ c s) r =
    rw (cons-append, contains) (rw (contains-middle t s r) (or-true _))

pub contains-append_right : (t s : String) → contains t (s <> t) ≡ true
contains-append_right t s =
    subst (λ r. contains t (s <> r) ≡ true) (append-nil t) (contains-middle t s "")
