-- ===== src/Collectors/Stacks/Masked.antt =====
-- src/pidprobe/collectors/_stacks.py: with masking on, no local variable with a secret-like name shows, and
-- the threads come with the main one first.
use pidprobe.Base.{
  ◌≡◌, refl, sym, ℕ, suc, String, Bool, true, false, Bool-cases, ◌≤◌, ◌⊎◌, inl, inr, Option, none,
  some, List, [], ◌∷◌, All, length, leb, eq_iff, if◌then◌else◌, arith,
}
use pidprobe.Base.Dict.{Dict, insert, lookup, lookup-insert}
use pidprobe.Base.Sort.{InOrder, sort-InOrder, All-sort, length-sort}
use pidprobe.SafeRepr.Names.{Unicode, is_secret_name}
use pidprobe.SafeRepr.Process.{Exc, Attempt, done, raised, ◌>>=◌, for_each, Ref, Process}
use pidprobe.SafeRepr.Render.{try_then, safe_repr, safe_repr_named, mask_placeholder}
use pidprobe.Collectors.Stacks.{
  StackFrame, FrameEntry, Thread, Stacks, Descriptors, goes_before, rendered, frame_locals,
  walk_from, walk, thread_entry, collect_stacks,
}

-- The code raised, or what it returned is as it should be.
pub data Yields {A : Type 0} (P : A → Type 0) : Attempt A → Type 0 where
  returns : (a : A) → P a → Yields P (done a)
  breaks_off : (e : Exc) → Yields P (raised e)

then-Yields :
    {A B : Type 0} {P : A → Type 0} {Q : B → Type 0} {r : Attempt A} (next : A → Attempt B)
    → Yields P r
    → ((a : A) → P a → Yields Q (next a))
    → Yields Q (r >>= next)
then-Yields next (returns a h) f = f a h
then-Yields next (breaks_off e) f = breaks_off e

if-Yields :
    {A : Type 0} {P : A → Type 0} (b : Bool) {x y : Attempt A}
    → Yields P x
    → Yields P y
    → Yields P (if b then x else y)
if-Yields true h k = h
if-Yields false h k = k

try-Yields :
    {A B : Type 0} {Q : B → Type 0} (r : Attempt A) (handler : Exc → Attempt B)
    (next : A → Attempt B)
    → ((e : Exc) → Yields Q (handler e))
    → ((a : A) → Yields Q (next a))
    → Yields Q (try_then r handler next)
unfolding try_then
try-Yields (done a) handler next h f = f a
try-Yields (raised e) handler next h f = if-Yields e.is_exception (h e) (breaks_off e)

for_each-Yields :
    {A B : Type 0} {Q : B → Type 0} (f : A → Attempt B) (xs : List A)
    → ((x : A) → Yields Q (f x))
    → Yields (All Q) (for_each f xs)
unfolding for_each
for_each-Yields f [] h = returns [] tt
for_each-Yields f (x ∷ xs) h =
    then-Yields _ (h x)
      (λ y q. then-Yields _ (for_each-Yields f xs h) (λ ys qs. returns (y ∷ ys) (q, qs)))

any-Yields : {A : Type 0} (r : Attempt A) → Yields (λ a. Unit {0}) r
any-Yields (done a) = returns a tt
any-Yields (raised e) = breaks_off e

-- The main thread stands before the others, and of two others the one with the smaller number.
abbrev pub StandsBefore : Thread → Thread → Type 0
StandsBefore x y =
    ((x.is_main ≡ true) × (y.is_main ≡ false))
    ⊎ ((x.is_main ≡ y.is_main) × (x.thread_id ≤ y.thread_id))

goes_before-total : (x y : Thread) → goes_before x y ≡ false → goes_before y x ≡ true
unfolding goes_before
goes_before-total x y h = ground arith

goes_before-StandsBefore : (x y : Thread) → goes_before x y ≡ true → StandsBefore x y
unfolding goes_before
goes_before-StandsBefore x y h = ground arith

StandsBefore-trans : (x y z : Thread) → StandsBefore x y → StandsBefore y z → StandsBefore x z
StandsBefore-trans x y z h k = ground arith

module _ (p : Process) (u : Unicode) where
  -- Whatever is under a secret-like name is the placeholder.
  abbrev pub IsMasked : Dict String → Type 0
  IsMasked d =
      (name text : String)
      → is_secret_name u name ≡ true
      → lookup name d ≡ some text
      → text ≡ mask_placeholder

  abbrev pub HasMasked : Option (Dict String) → Type 0
  HasMasked none = Unit
  HasMasked (some d) = IsMasked d

  abbrev AreMasked : List FrameEntry → Type 0
  AreMasked = All (λ entry. HasMasked entry.locals)

  named-Yields :
      (name : String) (value : Ref)
      → Yields
          (λ text. is_secret_name u name ≡ true → text ≡ mask_placeholder)
          (safe_repr_named p u name value true)
  unfolding safe_repr_named
  named-Yields name value = elim (Bool-cases (is_secret_name u name)) [
    | inl e ↦ rw e (returns _ (λ s. refl))
    | inr e ↦ rw e (then-Yields_self (safe_repr p u value true) (λ text s. ground (arith, s)))
  ]
    where
      then-Yields_self :
          {P : String → Type 0} (r : Attempt String) → ((a : String) → P a) → Yields P r
      then-Yields_self (done a) h = returns a (h a)
      then-Yields_self (raised e) h = breaks_off e

  insert-IsMasked :
      (name text : String) (d : Dict String)
      → (is_secret_name u name ≡ true → text ≡ mask_placeholder)
      → IsMasked d
      → IsMasked (insert name text d)
  insert-IsMasked name text d h k other found s l =
      ground (arith, lookup-insert name other text d, eq_iff name other, h, s, l, k other found s)

  rendered-Yields :
      (items : List (String × Ref)) (d : Dict String)
      → IsMasked d
      → Yields IsMasked (rendered p u true items d)
  unfolding rendered
  rendered-Yields [] d h = returns d h
  rendered-Yields ((name, value) ∷ items) d h =
      then-Yields _ (named-Yields name value)
        (λ text m. rendered-Yields items (insert name text d) (insert-IsMasked name text d m h))

  frame_locals-Yields : (frame : StackFrame) → Yields HasMasked (frame_locals p u true frame)
  unfolding frame_locals lookup
  frame_locals-Yields frame =
      try-Yields frame.f_locals _ _ (λ e. returns none tt)
        (λ items.
          then-Yields _ (rendered-Yields items [] (λ name text s l. ground (arith, l)))
            (λ d h. returns (some d) h))

  walk_from-Yields :
      (taken : ℕ) (chain : List StackFrame)
      → Yields (λ (frames, truncated). AreMasked frames) (walk_from p u true taken chain)
  unfolding walk_from
  walk_from-Yields taken [] = returns _ tt
  walk_from-Yields taken (frame ∷ rest) = elim (Bool-cases (leb 128 taken)) [
    | inl e ↦ rw e (returns _ tt)
    | inr e ↦ rw e (
        then-Yields _ (frame_locals-Yields frame)
          (λ locals h. then-Yields _ (walk_from-Yields (suc taken) rest) (λ r k. returns _ (h, k))))
  ]

  thread_entry-Yields :
      (descriptors : Descriptors) (main_ident : Option ℕ) (entry : ℕ × List StackFrame)
      → Yields
          (λ thread. AreMasked thread.frames)
          (thread_entry p u true descriptors main_ident entry)
  unfolding thread_entry walk
  thread_entry-Yields descriptors main_ident (thread_id, chain) =
      then-Yields _ (walk_from-Yields 0 chain) (λ r h. returns _ h)

  -- The threads are counted and in order, and show the placeholder under every secret-like name.
  abbrev pub IsOrderedMasked : Stacks → Type 0
  IsOrderedMasked stacks =
      All (λ thread. All (λ entry. HasMasked entry.locals) thread.frames) stacks.threads
      × InOrder StandsBefore stacks.threads
      × (stacks.thread_count ≡ length stacks.threads)

  -- What the collector gives, if it gives anything: the threads counted, the main one before all others
  -- and the others by number, and with masking on, the placeholder for every local variable with a
  -- secret-like name.
  pub collect_stacks-masked :
      (active : Attempt Descriptors) (main_ident : Option ℕ) (target : List (ℕ × List StackFrame))
      → Yields IsOrderedMasked (collect_stacks p u true active main_ident target)
  unfolding collect_stacks
  collect_stacks-masked active main_ident target =
      then-Yields _
        (try-Yields {Q = λ d. Unit {0}} active _ _ (λ e. returns _ tt) (λ d. returns _ tt))
        (λ descriptors h.
          then-Yields _ (for_each-Yields _ target (thread_entry-Yields descriptors main_ident))
            (λ threads k. returns _ (
              All-sort goes_before _ threads k,
              sort-InOrder goes_before StandsBefore goes_before-StandsBefore StandsBefore-trans
                  goes_before-total threads,
              sym (length-sort goes_before threads),
            )))
