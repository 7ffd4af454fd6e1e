-- ===== src/Commands/Printing.antt =====
-- src/pidprobe/_commands.py with src/pidprobe/_diff.py: what `pidprobe diff` prints of a series.
use mathlib.Core.List.{append-nil}
use pidprobe.Base.{
  ◌≡◌, refl, ap, ◌∙◌, ℕ, zero, suc, ◌+◌, ◌<◌, ◌-◌, String, List, [], ◌∷◌, ◌++◌, map, some, arith,
}
use pidprobe.Base.Json.{Fields}
use pidprobe.Errors.{Seconds, Exception, Result, ok, raised}
use pidprobe.Exits.{exit_ok}
use pidprobe.Diff.Sections.{Python, SnapshotDelta}
use pidprobe.Diff.Series.{
  Event, slept, sampled, yielded, failed, wait_until, emit, rounds, iter_snapshot_deltas,
}
use pidprobe.Diff.SeriesLaws.{
  deltas, stretch, Succeeds, iter_snapshot_deltas-deltas, iter_snapshot_deltas-failed,
}
use pidprobe.Commands.{run_diff}

module _ {F : Type 0} (line : SnapshotDelta F → String) where
  -- Nothing fails in a series.
  abbrev Quiet : List (Event F) → Type 0
  Quiet [] = Unit
  Quiet (failed e ∷ events) = ⊥
  Quiet (yielded delta ∷ events) = Quiet events
  Quiet (slept duration ∷ events) = Quiet events
  Quiet (sampled n ∷ events) = Quiet events

  Quiet-append : (xs ys : List (Event F)) → Quiet xs → Quiet ys → Quiet (xs ++ ys)
  Quiet-append [] ys h k = k
  Quiet-append (failed e ∷ xs) ys h k = absurd h
  Quiet-append (yielded delta ∷ xs) ys h k = Quiet-append xs ys h k
  Quiet-append (slept duration ∷ xs) ys h k = Quiet-append xs ys h k
  Quiet-append (sampled n ∷ xs) ys h k = Quiet-append xs ys h k

  -- A series that nothing fails in is printed whole, and what comes then goes on.
  run_diff-append :
      (xs ys : List (Event F))
      → Quiet xs
      → run_diff line (xs ++ ys)
        ≡ (map line (deltas xs) ++ (run_diff line ys).0, (run_diff line ys).1)
  unfolding run_diff
  run_diff-append [] ys h = refl
  run_diff-append (failed e ∷ xs) ys h = absurd h
  run_diff-append (yielded delta ∷ xs) ys h = rw (run_diff-append xs ys h) refl
  run_diff-append (slept duration ∷ xs) ys h = run_diff-append xs ys h
  run_diff-append (sampled n ∷ xs) ys h = run_diff-append xs ys h

  run_diff-Quiet :
      (xs : List (Event F)) → Quiet xs → run_diff line xs ≡ (map line (deltas xs), ok exit_ok)
  unfolding run_diff
  run_diff-Quiet [] h = refl
  run_diff-Quiet (failed e ∷ xs) h = absurd h
  run_diff-Quiet (yielded delta ∷ xs) h = rw (run_diff-Quiet xs h) refl
  run_diff-Quiet (slept duration ∷ xs) h = run_diff-Quiet xs h
  run_diff-Quiet (sampled n ∷ xs) h = run_diff-Quiet xs h

  module _ (py : Python F) (sample : ℕ → Result (Fields F)) (clock : ℕ → Seconds)
      (interval : Seconds) (snapshot : ℕ → Fields F) (delta : ℕ → SnapshotDelta F) where
    wait_until-Quiet : (taken : ℕ) → Quiet (wait_until py sample clock interval taken)
    unfolding wait_until
    wait_until-Quiet taken = ground arith

    waiting-deltas : (taken : ℕ) → deltas (wait_until py sample clock interval taken) ≡ []
    unfolding wait_until
    waiting-deltas taken = ground arith

    rounds-Quiet :
        (n taken : ℕ)
        → Succeeds py sample clock interval snapshot delta (suc taken + n)
        → Quiet (rounds py sample clock interval n (suc taken) (some (snapshot taken)))
    unfolding rounds emit
    rounds-Quiet zero taken h = tt
    rounds-Quiet (suc n) taken (s, d) =
        let rest =
          rounds-Quiet n (suc taken) ((λ k l. s k (omega arith)), λ k l. d k (omega arith)) in
        rw (s (suc taken) (omega arith), d taken (omega arith))
          (Quiet-append (wait_until py sample clock interval (suc taken)) _
            (wait_until-Quiet (suc taken)) rest)

    series-Quiet :
        (count : ℕ)
        → Succeeds py sample clock interval snapshot delta count
        → Quiet (iter_snapshot_deltas py sample clock interval count)
    unfolding iter_snapshot_deltas rounds emit
    series-Quiet zero h = tt
    series-Quiet (suc n) h =
        let rest = rounds-Quiet n 0 ((λ k l. h.0 k (omega arith)), λ k l. h.1 k (omega arith)) in
        rw (h.0 0 (omega arith))
          (Quiet-append (wait_until py sample clock interval 0) _ (wait_until-Quiet 0) rest)

    -- If all the samples are taken and each has a delta from the one before, the command prints exactly
    -- these deltas, one a line and in order, and returns 0.
    pub run_diff-deltas :
        (count : ℕ)
        → Succeeds py sample clock interval snapshot delta count
        → run_diff line (iter_snapshot_deltas py sample clock interval count)
          ≡ (map line (stretch delta 0 (count - 1)), ok exit_ok)
    run_diff-deltas count h =
        run_diff-Quiet (iter_snapshot_deltas py sample clock interval count) (series-Quiet count h)
        ∙ ap (λ ds. (map line ds, ok exit_ok))
            (iter_snapshot_deltas-deltas py sample clock interval snapshot delta count h)

    -- If a later sample fails, the deltas before it have been printed, and the command ends with the
    -- exception of the sample.
    pub run_diff-failed :
        (count more : ℕ) (e : Exception)
        → count < more
        → Succeeds py sample clock interval snapshot delta count
        → sample count ≡ raised e
        → run_diff line (iter_snapshot_deltas py sample clock interval more)
          ≡ (map line (stretch delta 0 (count - 1)), raised e)
    unfolding run_diff
    run_diff-failed count more e l h f =
        let series = iter_snapshot_deltas py sample clock interval count in
        let waiting = wait_until py sample clock interval count in
        rw
          (
            iter_snapshot_deltas-failed py sample clock interval snapshot delta count more e l h f,
            run_diff-append series (waiting ++ (failed e ∷ [])) (series-Quiet count h),
            run_diff-append waiting (failed e ∷ []) (wait_until-Quiet count),
            waiting-deltas count,
            append-nil,
            iter_snapshot_deltas-deltas py sample clock interval snapshot delta count h,
          )
          refl
