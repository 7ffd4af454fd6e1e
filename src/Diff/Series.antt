-- ===== src/Diff/Series.antt =====
-- src/pidprobe/_diff.py: `iter_snapshot_deltas`, as the list of what it does. The clock and the samples
-- are given by the number of the reading or of the sample. A series without a `count` is one of as
-- many rounds as its consumer waits for.
use pidprobe.Base.{
  ℕ, zero, suc, ◌+◌, ◌-◌, ◌*◌, Option, none, some, List, [], ◌∷◌, ◌++◌, ltb, if◌then◌else◌,
}
use pidprobe.Base.Json.{Fields}
use pidprobe.Errors.{Seconds, Exception, Result, ok, raised}
use pidprobe.Diff.Sections.{Python, SnapshotDelta, diff_snapshots}

-- `sleep(d)`, a snapshot taken (of the target, or an exception in its place), a delta for the consumer.
pub data Event (F : Type 0) : Type 0 where
  slept : Seconds → Event F
  sampled : ℕ → Event F
  yielded : SnapshotDelta F → Event F
  failed : Exception → Event F

module _ {F : Type 0} (py : Python F) (sample : ℕ → Result (Fields F)) (clock : ℕ → Seconds)
    (interval : Seconds) where
  -- `_wait_until(started + taken * interval_seconds)`; reading 0 of the clock is `started`, and round
  -- `taken` takes reading `taken + 1`.
  unfoldable pub wait_until : ℕ → List (Event F)
  wait_until taken =
      let deadline = clock 0 + taken * interval in
      let now = clock (suc taken) in if ltb now deadline then slept (deadline - now) ∷ [] else []

  unfoldable pub emit : Option (Fields F) → Fields F → Result (List (Event F))
  emit none current = ok []
  emit (some previous) current = elim (diff_snapshots py previous current) [
    | ok delta ↦ ok (yielded delta ∷ [])
    | raised e ↦ raised e
  ]

  -- The loop, with as many rounds left as its first argument says.
  unfoldable pub rounds : ℕ → ℕ → Option (Fields F) → List (Event F)
  rounds zero taken previous = []
  rounds (suc n) taken previous = wait_until taken ++ elim (sample taken) [
    | raised e ↦ failed e ∷ []
    | ok current ↦ sampled taken ∷ elim (emit previous current) [
      | raised e ↦ failed e ∷ []
      | ok events ↦ events ++ rounds n (suc taken) (some current)
    ]
  ]

  unfoldable pub iter_snapshot_deltas : ℕ → List (Event F)
  unfolding rounds
  iter_snapshot_deltas count = rounds count 0 none
