-- ===== src/SafeRepr/Bounds.antt =====
-- src/pidprobe/_saferepr.py: the length of a rendering, and how much of a container is read.
use mathlib.Core.List.{append_assoc, append-nil}
use mathlib.Core.Path.{subst}
use text.Mathlib.TextLemmas.{length-append}
use pidprobe.Base.{
  ℕ, zero, suc, ◌+◌, ◌≤◌, ◌≡◌, ◌∙◌, String, count, Bool, List, [], ◌∷◌, ◌++◌, ltb, length, arith,
  Bool-cases, inl, inr, ltb→ge,
}
use pidprobe.Base.Text
use pidprobe.Base.{take as list_take}
use pidprobe.SafeRepr.Names.{Unicode}
use pidprobe.SafeRepr.Process.{Attempt, done, raised, ◌>>=◌, item, stop, Iteration, Ref, Process}
use pidprobe.SafeRepr.Render.{
  bounded, truncation_marker, max_total_chars, max_depth, safe_repr, render, take, take_loop,
}

count-bounded_le : (text : String) (limit : ℕ) → count (bounded text limit) ≤ limit + 14
unfolding bounded
count-bounded_le text limit = elim (Bool-cases (ltb limit (count text))) [
  | inl long ↦ rw long (
      omega
        (arith, length-append (Text.take limit text) truncation_marker, Text.count-take limit text))
  | inr short ↦ rw short (omega (arith, ltb→ge limit (count text) short))
]

-- A whole rendering has at most 2,000 characters and the 14 of the truncation marker.
pub safe_repr-count :
    (p : Process) (u : Unicode) (r : Ref) (is_masked : Bool) {text : String}
    → safe_repr p u r is_masked ≡ done text
    → count text ≤ max_total_chars + count truncation_marker
unfolding safe_repr
safe_repr-count p u r is_masked {text} h = go (render p u max_depth is_masked r) h
  where
    go :
        (a : Attempt String)
        → (a >>= λ t. done (bounded t max_total_chars)) ≡ done text
        → count text ≤ max_total_chars + 14
    go (done t) e = ground (arith, count-bounded_le t max_total_chars)
    go (raised x) e = cc

-- The iteration over the elements of a list.
abbrev pub over : {A : Type 0} → List A → Iteration A
over [] i = stop
over (x ∷ xs) zero = item x
over (x ∷ xs) (suc i) = over xs i

take_loop-over :
    {A : Type 0} (next : Iteration A) (xs : List A) (room i : ℕ) (items : List A)
    → ((j k : ℕ) → k ≡ i + j → j ≤ room → next k ≡ over xs j)
    → take_loop next room i items ≡ done (items ++ list_take room xs, ltb room (length xs))
unfolding take_loop
take_loop-over next [] zero i items h =
    rw (h 0 i (omega arith) (omega arith), take_loop) (ground (arith, append-nil items))
take_loop-over next (x ∷ xs) zero i items h =
    rw (h 0 i (omega arith) (omega arith), take_loop) (ground (arith, append-nil items))
take_loop-over next [] (suc room) i items h =
    rw (h 0 i (omega arith) (omega arith), take_loop) (ground (arith, append-nil items))
take_loop-over next (x ∷ xs) (suc room) i items h =
    rw (h 0 i (omega arith) (omega arith), take_loop)
      (take_loop-over next xs room (suc i) (items ++ (x ∷ []))
          (λ j k e le. h (suc j) k (omega arith) (omega arith))
        ∙ ground (arith, append_assoc items (x ∷ []) (list_take room xs)))

-- `_take` gives the first `limit` elements and tells whether there are more. It asks for no more than
-- `limit + 1`, so the iteration may go on without end, or break off, behind those.
pub take-over :
    {A : Type 0} (next : Iteration A) (xs : List A) (limit : ℕ)
    → ((j : ℕ) → j ≤ limit → next j ≡ over xs j)
    → take next limit ≡ done (list_take limit xs, ltb limit (length xs))
unfolding take
take-over next xs limit h =
    take_loop-over next xs limit 0 []
      (λ j k e le. subst (λ n. next n ≡ over xs j) (omega arith) (h j le))
