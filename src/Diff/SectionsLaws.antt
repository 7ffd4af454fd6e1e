-- ===== src/Diff/SectionsLaws.antt =====
-- src/pidprobe/_diff.py: which snapshots have a delta, and when a section of it is missing.
use pidprobe.Base.{◌≡◌, ◌↔◌, ◌⊎◌, true, Option, none, arith}
use pidprobe.Base.Json.{Fields, get}
use pidprobe.Errors.{ok}
use pidprobe.Diff.Sections.{
  Python, ObjectsDelta, SnapshotDelta, section, meta_of, objects_delta, gc_delta, fds_delta,
  diff_snapshots,
}

-- A section is missing exactly if one of the snapshots lacks it.
abbrev pub IsMissing : {F A : Type 0} → Option A → Option (Fields F) → Option (Fields F) → Type 0
IsMissing delta before after = (delta ≡ none) ↔ ((before ≡ none) ⊎ (after ≡ none))

module _ {F : Type 0} (py : Python F) where
  objects-IsMissing :
      (before after : Option (Fields F)) {delta : Option ObjectsDelta}
      → objects_delta py before after ≡ ok delta
      → IsMissing delta before after
  unfolding objects_delta
  objects-IsMissing before after h = ground arith

  gc-IsMissing : (before after : Option (Fields F)) → IsMissing (gc_delta before after) before after
  unfolding gc_delta
  gc-IsMissing before after = ground arith

  fds-IsMissing :
      (before after : Option (Fields F)) → IsMissing (fds_delta before after) before after
  unfolding fds_delta
  fds-IsMissing before after = ground arith

  diff_snapshots-parts :
      (before after : Fields F) {delta : SnapshotDelta F}
      → diff_snapshots py before after ≡ ok delta
      → (py.equal (get "pid" (meta_of before)) (get "pid" (meta_of after)) ≡ true)
        × (delta.pid ≡ get "pid" (meta_of after))
        × (delta.captured_from ≡ get "captured_at" (meta_of before))
        × (delta.captured_to ≡ get "captured_at" (meta_of after))
        × (objects_delta py (section (get "objects" before)) (section (get "objects" after))
            ≡ ok delta.objects)
        × (delta.gc ≡ gc_delta (section (get "gc" before)) (section (get "gc" after)))
        × (delta.fds ≡ fds_delta (section (get "fds" before)) (section (get "fds" after)))
  unfolding diff_snapshots
  diff_snapshots-parts before after h = ground arith

  -- Two snapshots that have a delta are of one process, as Python compares pids; the delta carries the
  -- pid and both timestamps, and lacks a section exactly if one of the snapshots does.
  pub diff_snapshots-ok :
      (before after : Fields F) {delta : SnapshotDelta F}
      → diff_snapshots py before after ≡ ok delta
      → (py.equal (get "pid" (meta_of before)) (get "pid" (meta_of after)) ≡ true)
        × (delta.pid ≡ get "pid" (meta_of after))
        × (delta.captured_from ≡ get "captured_at" (meta_of before))
        × (delta.captured_to ≡ get "captured_at" (meta_of after))
        × IsMissing delta.objects (section (get "objects" before)) (section (get "objects" after))
        × IsMissing delta.gc (section (get "gc" before)) (section (get "gc" after))
        × IsMissing delta.fds (section (get "fds" before)) (section (get "fds" after))
  unfolding diff_snapshots
  diff_snapshots-ok before after h =
      let parts = diff_snapshots-parts before after h in
      (
        parts.0,
        parts.1,
        parts.2,
        parts.3,
        objects-IsMissing (section (get "objects" before)) (section (get "objects" after)) parts.4,
        rw (parts.5) (gc-IsMissing (section (get "gc" before)) (section (get "gc" after))),
        rw (parts.6) (fds-IsMissing (section (get "fds" before)) (section (get "fds" after))),
      )
