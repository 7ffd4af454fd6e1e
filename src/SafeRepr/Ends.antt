-- ===== src/SafeRepr/Ends.antt =====
-- Code of the target that ends with a value, and with what value.
use pidprobe.Base.{suc, ◌≡◌, refl, List, [], ◌∷◌, All, length, ap, true}
use pidprobe.SafeRepr.Process.{Exc, Attempt, done, raised, ◌>>=◌, for_each}
use pidprobe.SafeRepr.Render.{try_then}

-- Whatever is raised is an `Exception`.
abbrev pub Catchable {ℓ} : {A : Type ℓ} → Attempt A → Type 0
Catchable (done a) = Unit
Catchable (raised e) = e.is_exception ≡ true

pub data Ends {A : Type 0} (P : A → Type 0) : Attempt A → Type 0 where
  ends : (a : A) → P a → Ends P (done a)

pub then-Ends :
    {A B : Type 0} {P : A → Type 0} {r : Attempt A} {next : A → Attempt B} (Q : Attempt B → Type 0)
    → Ends P r
    → ((a : A) → P a → Q (next a))
    → Q (r >>= next)
then-Ends Q (ends a h) f = f a h

abbrev pub Any : {A : Type 0} → A → Type 0
Any a = Unit

pub value_of :
    {A : Type 0} {P : A → Type 0} {r : Attempt A} → Ends P r → (a : A) × (r ≡ done a) × P a
value_of (ends a h) = (a, refl, h)

pub try-Ends :
    {A B : Type 0} {P : B → Type 0} (r : Attempt A) (handler : Exc → Attempt B)
    (next : A → Attempt B)
    → Catchable r
    → ((e : Exc) → Ends P (handler e))
    → ((a : A) → Ends P (next a))
    → Ends P (try_then r handler next)
unfolding try_then
try-Ends (done a) handler next c h f = f a
try-Ends (raised e) handler next c h f = simp c (h e)

pub for_each-Ends :
    {A B : Type 0} (f : A → Attempt B) (xs : List A)
    → All (λ x. Ends Any (f x)) xs
    → Ends (λ ys. length ys ≡ length xs) (for_each f xs)
unfolding for_each
for_each-Ends f [] h = ends [] refl
for_each-Ends f (x ∷ xs) h =
    then-Ends (Ends _) h.0
      (λ y u. then-Ends (Ends _) (for_each-Ends f xs h.1) (λ ys v. ends _ (ap (λ n. suc n) v)))
