-- ===== src/SafeRepr/Returns.antt =====
-- src/pidprobe/_saferepr.py: attempts that end with a value or let an exception of some kind pass.
use pidprobe.Base.{
  ℕ, zero, suc, ◌≡◌, refl, String, Bool, true, false, List, [], ◌∷◌, ◌++◌, if◌then◌else◌,
}
use pidprobe.SafeRepr.Process.{
  Exc, Attempt, done, raised, ◌>>=◌, for_each, Pull, item, stop, breaks, Iteration, Ref, Object,
  a_dict, a_list, a_tuple, a_frozenset, a_set, Process,
}
use pidprobe.SafeRepr.Render.{try_then, on_pull, take_loop}

-- What may be raised, by what derives from `BaseException` alone: something that satisfies `E`.
abbrev pub Escaping : (Exc → Type 0) → Exc → Type 0
Escaping E e = e.is_exception ≡ false → E e

abbrev pub CatchablePull : (Exc → Type 0) → {A : Type 0} → Pull A → Type 0
CatchablePull E (breaks e) = Escaping E e
CatchablePull E _ = Unit

abbrev pub CatchableObject : (Exc → Type 0) → Attempt Object → Type 0
CatchableObject E (raised e) = E e
CatchableObject E (done (a_dict next)) = (i : ℕ) → CatchablePull E (next i)
CatchableObject E (done (a_list next)) = (i : ℕ) → CatchablePull E (next i)
CatchableObject E (done (a_tuple next)) = (i : ℕ) → CatchablePull E (next i)
CatchableObject E (done (a_frozenset next)) = (i : ℕ) → CatchablePull E (next i)
CatchableObject E (done (a_set next)) = (i : ℕ) → CatchablePull E (next i)
CatchableObject E (done _) = Unit

abbrev pub CatchableName : (Exc → Type 0) → Attempt String → Type 0
CatchableName E (done name) = Unit
CatchableName E (raised e) = E e

abbrev pub CatchableRun : (Exc → Type 0) → {A : Type 0} → Attempt A → Type 0
CatchableRun E (done a) = Unit
CatchableRun E (raised e) = Escaping E e

-- All that a rendering lets pass satisfies `E`.
pub record LetsPass (E : Exc → Type 0) (p : Process) : Type 0 where
  pub objects : (r : Ref) → CatchableObject E (p.object r)
  pub type_names : (r : Ref) → CatchableName E (p.type_name r)
  pub reprs : (r : Ref) → CatchableRun E (p.repr r)

-- The objects of the target tell `isinstance` what they are and have class names, and their iterations
-- and their `repr` raise nothing but what derives from `Exception`.
abbrev pub IsCatchable : Process → Type 0
IsCatchable p = LetsPass (λ e. ⊥) p

pub data Returns (E : Exc → Type 0) {A : Type 0} : Attempt A → Type 0 where
  returned : (x : A) → Returns E (done x)
  escaped : (e : Exc) → E e → Returns E (raised e)

on_pull-Catchable :
    (E : Exc → Type 0) {A B : Type 0} (q : Pull A) (b : B) (body : A → Attempt B)
    → CatchablePull E q
    → ((x : A) → CatchableRun E (body x))
    → CatchableRun E (on_pull q b body)
unfolding on_pull
on_pull-Catchable E (item x) b body c h = h x
on_pull-Catchable E stop b body c h = tt
on_pull-Catchable E (breaks e) b body c h = c

pub take_loop-Catchable :
    (E : Exc → Type 0) {A : Type 0} (next : Iteration A) (h : (i : ℕ) → CatchablePull E (next i))
    (room i : ℕ) (items : List A)
    → CatchableRun E (take_loop next room i items)
unfolding take_loop
take_loop-Catchable E next h zero i items = on_pull-Catchable E (next i) _ _ (h i) (λ x. tt)
take_loop-Catchable E next h (suc room) i items =
    on_pull-Catchable E (next i) _ _ (h i)
      (λ x. take_loop-Catchable E next h room (suc i) (items ++ (x ∷ [])))

module _ {E : Exc → Type 0} where
  split-Returns :
      {A : Type 0} (b : Bool) {x y : Attempt A}
      → Returns E x
      → (b ≡ false → Returns E y)
      → Returns E (if b then x else y)
  split-Returns true h k = h
  split-Returns false h k = k refl

  pub try_then-Returns :
      {A B : Type 0} (a : Attempt A) {handler : Exc → Attempt B} {next : A → Attempt B}
      → CatchableRun E a
      → ((e : Exc) → Returns E (handler e))
      → ((x : A) → Returns E (next x))
      → Returns E (try_then a handler next)
  unfolding try_then
  try_then-Returns (done a) c h k = k a
  try_then-Returns (raised e) c h k = split-Returns e.is_exception (h e) (λ i. escaped e (c i))

  pub >>=-Returns :
      {A B : Type 0} {a : Attempt A} {f : A → Attempt B}
      → Returns E a
      → ((x : A) → Returns E (f x))
      → Returns E (a >>= f)
  >>=-Returns (returned x) k = k x
  >>=-Returns (escaped e h) k = escaped e h

  pub for_each-Returns :
      {A B : Type 0} {f : A → Attempt B} (xs : List A)
      → ((x : A) → Returns E (f x))
      → Returns E (for_each f xs)
  unfolding for_each
  for_each-Returns [] h = returned []
  for_each-Returns (x ∷ xs) h =
      >>=-Returns (h x) λ y. >>=-Returns (for_each-Returns xs h) λ ys. returned (y ∷ ys)

  pub if-Returns :
      {A : Type 0} (b : Bool) {x y : Attempt A}
      → Returns E x
      → Returns E y
      → Returns E (if b then x else y)
  if-Returns true h k = h
  if-Returns false h k = k

  pub name-Returns : (name : Attempt String) → CatchableName E name → Returns E name
  name-Returns (done name) c = returned name
  name-Returns (raised e) c = escaped e c
