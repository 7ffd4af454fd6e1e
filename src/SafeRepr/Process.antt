-- ===== src/SafeRepr/Process.antt =====
-- What src/pidprobe/_saferepr.py sees of the process that it runs in: objects at references, so that
-- containers may share elements and contain themselves. `repr`, iteration and class names are the
-- target's own code, and so are arguments.
use pidprobe.Base.{ℕ, String, Bool, List, [], ◌∷◌}

-- An exception. `is_exception` is false for those that derive from `BaseException` alone
-- (KeyboardInterrupt, SystemExit), which `except Exception` lets pass.
pub record Exc : Type 0 where
  pub type_name : String
  pub is_exception : Bool

-- What a piece of Python code ends with.
pub data Attempt {ℓ} (A : Type ℓ) : Type ℓ where
  done : A → Attempt A
  raised : Exc → Attempt A

infixl 5 ◌>>=◌
abbrev pub ◌>>=◌ {ℓ κ} : {A : Type ℓ} {B : Type κ} → Attempt A → (A → Attempt B) → Attempt B
done a >>= f = f a
raised e >>= f = raised e

-- `[f(x) for x in xs]`
unfoldable pub for_each {ℓ κ} :
    {A : Type ℓ} {B : Type κ} → (A → Attempt B) → List A → Attempt (List B)
for_each f [] = done []
for_each f (x ∷ xs) = do y ← f x; ys ← for_each f xs; done (y ∷ ys)

-- The answer to one call of `__next__`.
pub data Pull (A : Type 0) : Type 0 where
  item : A → Pull A
  stop : Pull A
  breaks : Exc → Pull A

-- An iteration, by the answer to each call. It may have no end, and it may break off: another
-- thread can change the container meanwhile.
abbrev pub Iteration : Type 0 → Type 0
Iteration A = ℕ → Pull A

abbrev pub Ref : Type 0
Ref = ℕ

-- What `isinstance` tells of an object, with the iteration that the renderer starts on it.
pub data Object : Type 0 where
  a_dict : Iteration (Ref × Ref) → Object
  a_list a_tuple a_frozenset a_set : Iteration Ref → Object
  a_str : String → Object
  other : Object

-- `isinstance` asks an object that it does not know for its `__class__`, and a class for its
-- `__name__`: both may run code, which may raise. An object answers the same each time it is asked. The
-- classes of exceptions are taken to have ordinary names.
pub record Process : Type 0 where
  pub object : Ref → Attempt Object
  pub type_name : Ref → Attempt String
  pub repr : Ref → Attempt String
