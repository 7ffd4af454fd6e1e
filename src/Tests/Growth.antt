-- ===== src/Tests/Growth.antt =====
-- Deltas between samples of a small process.
use pidprobe.Base.{
  ℕ, zero, suc, ◌*◌, ◌<◌, ◌≡◌, ◌↔◌, refl, Bool, true, false, none, some, [], ◌∷◌, In, ◌==◌,
  if◌then◌else◌, arith,
}
use pidprobe.Base.Int.{ℤ, ◌-ℤ◌, pos, negsuc}
use pidprobe.Base.Dict.{Dict}
use pidprobe.Base.Json.{int, obj, Fields, end, field, get}
use pidprobe.Errors.{Seconds, Exception, Result, ok, raised, python, other_exception}
use pidprobe.Diff.Types.{TypeDelta, ranked, type_deltas}
use pidprobe.Diff.Ranking.{IsRanked, ranked-IsRanked, IsRow, type_deltas_iff}
use pidprobe.Diff.Sections.{
  Python, SnapshotDelta, interval_ms, objects_delta, gc_delta, fds_delta, diff_snapshots,
}
use pidprobe.Diff.Sections.{meta_of, section}
use pidprobe.Diff.SectionsLaws.{IsMissing, diff_snapshots-ok}
use pidprobe.Diff.Series.{iter_snapshot_deltas}
use pidprobe.Commands.{run_diff}
use pidprobe.Commands.Printing.{run_diff-failed}
use pidprobe.Diff.SeriesLaws.{deltas, Succeeds, iter_snapshot_deltas-deltas}

abbrev was : Dict ℤ
was = ("dict", pos 5) ∷ ("list", pos 9) ∷ ("str", pos 2) ∷ []

abbrev now : Dict ℤ
now = ("dict", pos 8) ∷ ("list", pos 9) ∷ ("tuple", pos 1) ∷ []

abbrev lost : TypeDelta
lost = record { label = "str"; before = some (pos 2); after = none; delta = negsuc 1 }

type_deltas_iff_example : In lost (type_deltas was now) ↔ IsRow was now lost
type_deltas_iff_example = type_deltas_iff was now lost

ranked-IsRanked_example : IsRanked (ranked was now ("str" ∷ "tuple" ∷ "dict" ∷ "list" ∷ []))
ranked-IsRanked_example = ranked-IsRanked was now ("str" ∷ "tuple" ∷ "dict" ∷ "list" ∷ [])

abbrev python_floats : Python Bool
python_floats = record {
  equal = λ a b. true;
  repr = λ a. "7";
  is_zero = λ x. false;
  Stamp = ℕ;
  fromisoformat = λ text. none;
  elapsed_ms = λ a b. ok true;
}

-- Sample `k` counts `k` descriptors; the third one fails.
abbrev snapshot : ℕ → Fields Bool
snapshot k =
    field "meta" (obj (field "pid" (int (pos 7)) end))
      (field "fds" (obj (field "count" (int (pos k)) end)) end)

abbrev gone : Exception
gone = python other_exception "Gone" "the target is gone"

abbrev sample : ℕ → Result (Fields Bool)
sample k = if k == 2 then raised gone else ok (snapshot k)

abbrev clock : ℕ → Seconds
clock k = k * 3

abbrev delta : ℕ → SnapshotDelta Bool
delta k = record {
  pid = some (int (pos 7));
  captured_from = none;
  captured_to = none;
  interval_ms = none;
  objects = none;
  gc = none;
  fds = some (some (record { before = pos k; after = pos (suc k); delta = pos 1 }));
}

taken : (k : ℕ) → k < 2 → sample k ≡ ok (snapshot k)
taken k l = ground arith

moved :
    (k : ℕ)
    → suc k < 2
    → diff_snapshots python_floats (snapshot k) (snapshot (suc k)) ≡ ok (delta k)
unfolding diff_snapshots get interval_ms objects_delta gc_delta fds_delta ◌-ℤ◌ meta_of
moved zero l = refl
moved (suc k) l = absurd (omega arith)

two_succeed : Succeeds python_floats sample clock 2 snapshot delta 2
two_succeed = (taken, moved)

iter_snapshot_deltas-deltas_example :
    deltas (iter_snapshot_deltas python_floats sample clock 2 2) ≡ delta 0 ∷ []
iter_snapshot_deltas-deltas_example =
    iter_snapshot_deltas-deltas python_floats sample clock 2 snapshot delta 2 two_succeed

diff_snapshots-ok_example :
    (python_floats.equal (get "pid" (meta_of (snapshot 0))) (get "pid" (meta_of (snapshot 1)))
      ≡ true)
    × ((delta 0).pid ≡ get "pid" (meta_of (snapshot 1)))
    × ((delta 0).captured_from ≡ get "captured_at" (meta_of (snapshot 0)))
    × ((delta 0).captured_to ≡ get "captured_at" (meta_of (snapshot 1)))
    × IsMissing
        (delta 0).objects
        (section (get "objects" (snapshot 0)))
        (section (get "objects" (snapshot 1)))
    × IsMissing (delta 0).gc (section (get "gc" (snapshot 0))) (section (get "gc" (snapshot 1)))
    × IsMissing (delta 0).fds (section (get "fds" (snapshot 0))) (section (get "fds" (snapshot 1)))
diff_snapshots-ok_example =
    diff_snapshots-ok python_floats (snapshot 0) (snapshot 1) (moved 0 (omega arith))

run_diff-failed_example :
    run_diff (λ d. "delta") (iter_snapshot_deltas python_floats sample clock 2 9)
    ≡ ("delta" ∷ [], raised gone)
run_diff-failed_example =
    run_diff-failed (λ d. "delta") python_floats sample clock 2 snapshot delta 2 9 gone
      (omega arith) two_succeed refl
