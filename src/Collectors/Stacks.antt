-- ===== src/Collectors/Stacks.antt =====
-- src/pidprobe/collectors/_stacks.py: what the snippet does in the target. The frames of a thread come
-- innermost first, as `f_back` chains them; their local variables are objects of the process.
pub mod Walk
pub mod Masked
use pidprobe.Base.{
  ℕ, suc, String, Bool, true, false, Option, none, some, List, [], ◌∷◌, length, leb, ◌==◌,
  if◌then◌else◌,
}
use pidprobe.Base.Dict.{Dict, insert}
use pidprobe.Base.Sort.{sort}
use pidprobe.SafeRepr.Names.{Unicode}
use pidprobe.SafeRepr.Process.{Exc, Attempt, done, raised, ◌>>=◌, for_each, Ref, Process}
use pidprobe.SafeRepr.Render.{try_then, safe_repr_named}

abbrev pub max_frame_depth : ℕ
max_frame_depth = 128

-- A frame of the target; `f_locals` is what `dict(frame.f_locals)` comes to.
pub record StackFrame : Type 0 where
  pub file : String
  pub line : ℕ
  pub function : String
  pub f_locals : Attempt (List (String × Ref))

pub record FrameEntry : Type 0 where
  pub file : String
  pub line : ℕ
  pub function : String
  pub locals : Option (Dict String)

pub record Thread : Type 0 where
  pub thread_id : ℕ
  pub name : Option String
  pub daemon : Option Bool
  pub is_main : Bool
  pub frames : List FrameEntry
  pub frames_truncated : Bool

pub record Stacks : Type 0 where
  pub thread_count : ℕ
  pub max_frame_depth : ℕ
  pub masking_enabled : Bool
  pub threads : List Thread

abbrev pub Descriptors : Type 0
Descriptors = List (ℕ × (String × Bool))

-- `descriptors.get(thread_id)`
descriptor : ℕ → Descriptors → Option (String × Bool)
descriptor thread_id [] = none
descriptor thread_id ((ident, d) ∷ rest) =
    if ident == thread_id then some d else descriptor thread_id rest

-- The key `(not entry["is_main"], entry["thread_id"])` is at most that of the other.
unfoldable pub goes_before : Thread → Thread → Bool
goes_before x y =
    if x.is_main
    then (if y.is_main then leb x.thread_id y.thread_id else true)
    else if y.is_main
    then false
    else leb x.thread_id y.thread_id

module _ (p : Process) (u : Unicode) (is_masked : Bool) where
  -- The dict comprehension over the items.
  unfoldable pub rendered : List (String × Ref) → Dict String → Attempt (Dict String)
  rendered [] d = done d
  rendered ((name, value) ∷ items) d =
      safe_repr_named p u name value is_masked >>= (λ text. rendered items (insert name text d))

  unfoldable pub frame_locals : StackFrame → Attempt (Option (Dict String))
  unfolding try_then
  frame_locals frame =
      try_then frame.f_locals (λ e. done none) (λ items. rendered items [] >>= (λ d. done (some d)))

  -- The `while` statement, with the number of frames that it has taken.
  unfoldable pub walk_from : ℕ → List StackFrame → Attempt (List FrameEntry × Bool)
  walk_from taken [] = done ([], false)
  walk_from taken (frame ∷ rest) =
      let later = walk_from (suc taken) rest in
      if leb max_frame_depth taken
      then done ([], true)
      else (frame_locals frame >>= (λ locals. later >>= (λ (frames, truncated). done (
        record { file = frame.file; line = frame.line; function = frame.function; locals = locals }
            ∷ frames,
        truncated,
      ))))

  unfoldable pub walk : List StackFrame → Attempt (List FrameEntry × Bool)
  walk chain = walk_from 0 chain

  -- The body of the last `for` statement.
  unfoldable pub thread_entry :
      Descriptors → (main_ident : Option ℕ) → ℕ × List StackFrame → Attempt Thread
  unfolding descriptor
  thread_entry descriptors main_ident (thread_id, chain) = walk chain >>= (λ (frames, truncated).
      let known = descriptor thread_id descriptors in
      done (record {
        thread_id = thread_id;
        name = elim known [ none ↦ none | some (name, daemon) ↦ some name ];
        daemon = elim known [ none ↦ none | some (name, daemon) ↦ some daemon ];
        is_main = elim main_ident [ none ↦ false | some ident ↦ thread_id == ident ];
        frames = frames;
        frames_truncated = truncated;
      }))

  -- The whole snippet, for what the active threads, the main thread and the target's frames come to.
  unfoldable pub collect_stacks :
      Attempt Descriptors → (main_ident : Option ℕ) → List (ℕ × List StackFrame) → Attempt Stacks
  unfolding try_then
  collect_stacks active main_ident target_frames = do
    descriptors ← try_then active (λ e. done []) (λ d. done d)
    threads ← for_each (thread_entry descriptors main_ident) target_frames
    done (record {
      thread_count = length threads;
      max_frame_depth = max_frame_depth;
      masking_enabled = is_masked;
      threads = sort goes_before threads;
    })
