-- ===== src/SafeRepr/Taken.antt =====
-- src/pidprobe/_saferepr.py: what `_take` gives of an iteration.
use pidprobe.Base.{ℕ, zero, suc, ◌≡◌, refl, ◌≢◌, Bool, false, List, [], ◌∷◌, ◌++◌, All, All-append}
use pidprobe.SafeRepr.Process.{Exc, Attempt, done, raised, Pull, item, stop, breaks, Iteration}
use pidprobe.SafeRepr.Render.{try_then, on_pull, take_loop}

-- Every element that the iteration gives satisfies `P`.
abbrev pub Gives : {A : Type 0} → (A → Type 0) → Iteration A → Type 0
Gives {A} P next = (i : ℕ) (x : A) → next i ≡ item x → P x

abbrev pub GivenAll : {A : Type 0} → (A → Type 0) → Attempt (List A × Bool) → Type 0
GivenAll P (done (xs, more)) = All P xs
GivenAll P (raised e) = Unit

on_pull-Gives :
    {A : Type 0} (P : A → Type 0) (next : Pull A) (items : List A)
    (body : A → Attempt (List A × Bool))
    → All P items
    → ((x : A) → next ≡ item x → GivenAll P (body x))
    → GivenAll P (on_pull next (items, false) body)
unfolding on_pull
on_pull-Gives P (item x) items body h k = k x refl
on_pull-Gives P stop items body h k = h
on_pull-Gives P (breaks e) items body h k = tt

pub take_loop-Gives :
    {A : Type 0} (P : A → Type 0) (next : Iteration A)
    → Gives P next
    → (room i : ℕ) (items : List A) → All P items
    → GivenAll P (take_loop next room i items)
unfolding take_loop
take_loop-Gives P next g zero i items h = on_pull-Gives P (next i) items _ h (λ x e. h)
take_loop-Gives P next g (suc room) i items h = on_pull-Gives P (next i) items _ h λ x e.
    take_loop-Gives P next g room (suc i) (items ++ (x ∷ []))
      (All-append P items (x ∷ []) h (g i x e, tt))

pub try_then-ext {κ} :
    {A : Type 0} {B : Type κ} (P : A → Type 0) (a : Attempt (List A × Bool)) (f g : Exc → Attempt B)
    (h k : List A × Bool → Attempt B)
    → GivenAll P a
    → ((e : Exc) → f e ≡ g e)
    → ((xs : List A) (more : Bool) → All P xs → a ≡ done (xs, more) → h (xs, more) ≡ k (xs, more))
    → try_then a f h ≡ try_then a g k
unfolding try_then
try_then-ext P (done (xs, more)) f g h k given same rest = rest xs more given refl
try_then-ext P (raised e) f g h k given same rest = rw (same e)

on_pull-some :
    {A : Type 0} (q : Pull A) (items : List A) (body : A → Attempt (List A × Bool))
    → ((x : A) → body x ≢ done ([], false))
    → on_pull q (items, false) body ≡ done ([], false)
    → q ≡ stop
unfolding on_pull
on_pull-some (item x) items body h e = absurd (h x e)
on_pull-some stop items body h e = refl
on_pull-some (breaks x) items body h e = cc

on_pull-ne :
    {A : Type 0} (q : Pull A) (x : A) (items : List A) (body : A → Attempt (List A × Bool))
    → ((y : A) → body y ≢ done ([], false))
    → on_pull q (x ∷ items, false) body ≢ done ([], false)
unfolding on_pull
on_pull-ne (item y) x items body h e = h y e
on_pull-ne stop x items body h e = cc
on_pull-ne (breaks y) x items body h e = cc

take_loop-some :
    {A : Type 0} (next : Iteration A) (room i : ℕ) (x : A) (items : List A)
    → take_loop next room i (x ∷ items) ≢ done ([], false)
unfolding take_loop
take_loop-some next zero i x items e = on_pull-ne (next i) x items _ (λ y c. cc) e
take_loop-some next (suc room) i x items e =
    on_pull-ne (next i) x items _ (λ y. take_loop-some next room (suc i) x (items ++ (y ∷ []))) e

-- Nothing was taken of a container only if it had nothing to give.
pub take-nothing :
    {A : Type 0} (next : Iteration A) (room : ℕ)
    → take_loop next (suc room) 0 [] ≡ done ([], false)
    → next 0 ≡ stop
unfolding take_loop
take-nothing next room e = on_pull-some (next 0) [] _ (λ x. take_loop-some next room 1 x []) e
