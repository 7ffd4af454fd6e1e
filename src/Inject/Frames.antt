-- ===== src/Inject/Frames.antt =====
-- src/pidprobe/_inject.py: `_pidprobe_target_frames`. A frame is known by its `id`; the frames of a
-- thread form a chain by `f_back`, innermost first.
use mathlib.Core.Bool.{or-true}
use mathlib.Core.Path.{subst}
use mathlib.Core.List.{append_assoc}
use pidprobe.Base.{
  ℕ, ◌≡◌, refl, ◌≢◌, Bool, true, false, ◌||◌, List, [], ◌∷◌, ◌++◌, ◌==◌, if◌then◌else◌, arith, All,
}

abbrev pub Frame : Type 0
Frame = ℕ

abbrev pub contains : List Frame → Frame → Bool
contains [] f = false
contains (x ∷ xs) f = f == x || contains xs f

-- The first loop: from the running frame up to `_pidprobe_root`, and one further.
unfoldable pub own_frames : Frame → List Frame → List Frame
own_frames root [] = []
own_frames root (f ∷ []) = f ∷ []
own_frames root (f ∷ g ∷ rest) =
    let more = own_frames root (g ∷ rest) in if f == root then f ∷ g ∷ [] else f ∷ more

-- The inner loop: `while top is not None and id(top) in own`.
unfoldable pub strip : List Frame → List Frame → List Frame
strip own [] = []
strip own (f ∷ rest) = let more = strip own rest in if contains own f then more else f ∷ rest

-- The second loop, over `sys._current_frames()`: threads that are left without a frame are dropped.
unfoldable pub target_frames_of : List Frame → List (ℕ × List Frame) → List (ℕ × List Frame)
unfolding strip
target_frames_of own [] = []
target_frames_of own ((thread, chain) ∷ threads) = elim (strip own chain) [
  | [] ↦ target_frames_of own threads
  | f ∷ rest ↦ (thread, f ∷ rest) ∷ target_frames_of own threads
]

unfoldable pub target_frames : Frame → List Frame → List (ℕ × List Frame) → List (ℕ × List Frame)
unfolding own_frames target_frames_of
target_frames root running threads = target_frames_of (own_frames root running) threads

-- The frames up to the root, as the interpreter stacks them: what the script called, the root, and
-- the frame of the script's module.
own_frames-append :
    (inner : List Frame) (root script : Frame) (target : List Frame)
    → All (λ f. f ≢ root) inner
    → own_frames root (inner ++ (root ∷ script ∷ target)) ≡ inner ++ (root ∷ script ∷ [])
unfolding own_frames
own_frames-append [] root script target h = ground arith
own_frames-append (f ∷ []) root script target h = ground arith
own_frames-append (f ∷ g ∷ rest) root script target h =
    ground (arith, own_frames-append (g ∷ rest) root script target h.1)

strip-append :
    (own chain rest : List Frame)
    → All (λ f. contains own f ≡ true) chain
    → strip own (chain ++ rest) ≡ strip own rest
unfolding strip
strip-append own [] rest h = refl
strip-append own (f ∷ chain) rest h = rw h.0 (strip-append own chain rest h.1)

contains_middle :
    (before after : List Frame) (f : Frame) → contains (before ++ (f ∷ after)) f ≡ true
contains_middle [] after f = ground arith
contains_middle (x ∷ before) after f = rw (contains_middle before after f) (or-true _)

contains-All : (before chain : List Frame) → All (λ f. contains (before ++ chain) f ≡ true) chain
contains-All before [] = tt
contains-All before (f ∷ chain) = (
  contains_middle before chain f,
  subst (λ own. All (λ g. contains own g ≡ true) chain) (append_assoc before (f ∷ []) chain)
      (contains-All (before ++ (f ∷ [])) chain),
)

-- On the thread that runs the script the chain that is left is the target's own, whole; on a thread
-- with no frame of the script nothing is left out.
pub strip-own_frames :
    (inner : List Frame) (root script f : Frame) (target : List Frame)
    → All (λ g. g ≢ root) inner
    → contains (inner ++ (root ∷ script ∷ [])) f ≡ false
    → strip
        (own_frames root (inner ++ (root ∷ script ∷ f ∷ target)))
        (inner ++ (root ∷ script ∷ f ∷ target))
      ≡ f ∷ target
unfolding strip
strip-own_frames inner root script f target h k =
    rw
      (
        own_frames-append inner root script (f ∷ target) h,
        ← append_assoc inner (root ∷ script ∷ []) (f ∷ target),
        strip-append (inner ++ (root ∷ script ∷ [])) (inner ++ (root ∷ script ∷ [])) (f ∷ target)
            (contains-All [] (inner ++ (root ∷ script ∷ []))),
      )
      (simp k)
