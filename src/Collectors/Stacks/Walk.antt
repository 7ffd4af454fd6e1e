-- ===== src/Collectors/Stacks/Walk.antt =====
-- src/pidprobe/collectors/_stacks.py: the frames of a thread, cut at the bound.
use pidprobe.Base.{◌≡◌, ℕ, String, Bool, List, take, length, map, ltb}
use pidprobe.Base.Dict.{Dict}
use pidprobe.SafeRepr.Names.{Unicode}
use pidprobe.SafeRepr.Process.{Process}
use pidprobe.SafeRepr.Returns.{IsCatchable}
use pidprobe.SafeRepr.Ends.{Ends}
use pidprobe.Collectors.Stacks.{StackFrame, FrameEntry}

-- Where a frame stands.
abbrev pub position : StackFrame → String × ℕ × String
position frame = (frame.file, frame.line, frame.function)

abbrev pub entry_position : FrameEntry → String × ℕ × String
entry_position entry = (entry.file, entry.line, entry.function)

module _ (p : Process) (u : Unicode) (is_masked : Bool) (c : IsCatchable p) where
  -- What a walk comes to, with room for so many frames.
  abbrev IsWalk : ℕ → List StackFrame → List FrameEntry × Bool → Type 0
  IsWalk room chain (frames, truncated) =
      (map entry_position frames ≡ map position (take room chain))
      × (truncated ≡ ltb room (length chain))
