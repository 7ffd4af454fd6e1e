-- ===== src/Diff/SeriesLaws.antt =====
-- src/pidprobe/_diff.py: what a series of samples hands to its consumer, and how a failed sample ends it.
use mathlib.Core.List.{append_assoc}
use pidprobe.Base.{
  ℕ, zero, suc, ◌+◌, ◌-◌, ◌<◌, ◌≡◌, refl, sym, ap, ◌∙◌, some, List, [], ◌∷◌, ◌++◌, arith,
}
use pidprobe.Base.Json.{Fields}
use pidprobe.Errors.{Seconds, Exception, Result, ok, raised}
use pidprobe.Diff.Sections.{Python, SnapshotDelta, diff_snapshots}
use pidprobe.Diff.Series.{
  Event, slept, sampled, yielded, failed, wait_until, emit, rounds, iter_snapshot_deltas,
}

-- What the consumer gets.
abbrev pub deltas : {F : Type 0} → List (Event F) → List (SnapshotDelta F)
deltas [] = []
deltas (yielded delta ∷ events) = delta ∷ deltas events
deltas (slept duration ∷ events) = deltas events
deltas (sampled n ∷ events) = deltas events
deltas (failed e ∷ events) = deltas events

deltas-append : {F : Type 0} (xs ys : List (Event F)) → deltas (xs ++ ys) ≡ deltas xs ++ deltas ys
deltas-append [] ys = refl
deltas-append (yielded delta ∷ xs) ys = ap (λ r. delta ∷ r) (deltas-append xs ys)
deltas-append (slept duration ∷ xs) ys = deltas-append xs ys
deltas-append (sampled n ∷ xs) ys = deltas-append xs ys
deltas-append (failed e ∷ xs) ys = deltas-append xs ys

-- The values of a function from `start` on.
abbrev pub stretch {ℓ} : {A : Type ℓ} → (ℕ → A) → ℕ → ℕ → List A
stretch f start zero = []
stretch f start (suc n) = f start ∷ stretch f (suc start) n

module _ {F : Type 0} (py : Python F) (sample : ℕ → Result (Fields F)) (clock : ℕ → Seconds)
    (interval : Seconds) where
  wait_until-deltas :
      (taken : ℕ) (rest : List (Event F))
      → deltas (wait_until py sample clock interval taken ++ rest) ≡ deltas rest
  unfolding wait_until
  wait_until-deltas taken rest = ground arith

  module _ (snapshot : ℕ → Fields F) (delta : ℕ → SnapshotDelta F) where
    -- The first `count` samples are taken, and each has a delta from the one before.
    abbrev pub Succeeds : ℕ → Type 0
    Succeeds count =
        ((k : ℕ) → k < count → sample k ≡ ok (snapshot k))
        × ((k : ℕ)
            → suc k < count
            → diff_snapshots py (snapshot k) (snapshot (suc k)) ≡ ok (delta k))

    rounds-deltas :
        (n taken : ℕ)
        → Succeeds (suc taken + n)
        → deltas (rounds py sample clock interval n (suc taken) (some (snapshot taken)))
          ≡ stretch delta taken n
    unfolding rounds emit
    rounds-deltas zero taken h = refl
    rounds-deltas (suc n) taken (s, d) =
        wait_until-deltas (suc taken) _
        ∙ rw (s (suc taken) (omega arith), d taken (omega arith))
            (ap (λ r. delta taken ∷ r)
              (rounds-deltas n (suc taken) ((λ k l. s k (omega arith)), λ k l. d k (omega arith))))

    -- If the first `count` samples are taken and each has a delta from the one before, then the
    -- consumer gets exactly these deltas, in order: one fewer than there are samples.
    pub iter_snapshot_deltas-deltas :
        (count : ℕ)
        → Succeeds count
        → deltas (iter_snapshot_deltas py sample clock interval count) ≡ stretch delta 0 (count - 1)
    unfolding iter_snapshot_deltas rounds emit
    iter_snapshot_deltas-deltas zero h = refl
    iter_snapshot_deltas-deltas (suc n) h =
        wait_until-deltas 0 _
        ∙ rw (h.0 0 (omega arith)) (
            rounds-deltas n 0 ((λ k l. h.0 k (omega arith)), λ k l. h.1 k (omega arith))
            ∙ ap (stretch delta 0) (omega arith))

    rounds-failed :
        (n left taken : ℕ) (e : Exception)
        → n < left
        → Succeeds (suc taken + n)
        → sample (suc taken + n) ≡ raised e
        → rounds py sample clock interval left (suc taken) (some (snapshot taken))
          ≡ rounds py sample clock interval n (suc taken) (some (snapshot taken))
            ++ (wait_until py sample clock interval (suc taken + n) ++ (failed e ∷ []))
    unfolding rounds emit
    rounds-failed n zero taken e l h f = absurd (omega arith)
    rounds-failed zero (suc left) taken e l h f =
        let here : suc taken + 0 ≡ suc taken = omega arith in
        let end : sample (suc taken) ≡ raised e = ap sample (sym here) ∙ f in rw (end, here) refl
    rounds-failed (suc n) (suc left) taken e l (s, d) f =
        let next : suc taken + suc n ≡ suc (suc taken) + n = omega arith in
        let rest =
          rounds-failed n left (suc taken) e (omega arith)
            ((λ k l. s k (omega arith)), λ k l. d k (omega arith)) (ap sample (sym next) ∙ f) in
        rw (s (suc taken) (omega arith), d taken (omega arith), rest, next)
          (sym (append_assoc (wait_until py sample clock interval (suc taken)) _ _))

    -- If the sample after the first `count` fails, and those were taken and have their deltas, then the
    -- series does what a series of `count` samples does, waits for the failing one and ends with its
    -- exception: no later sample is taken.
    pub iter_snapshot_deltas-failed :
        (count more : ℕ) (e : Exception)
        → count < more
        → Succeeds count
        → sample count ≡ raised e
        → iter_snapshot_deltas py sample clock interval more
          ≡ iter_snapshot_deltas py sample clock interval count
            ++ (wait_until py sample clock interval count ++ (failed e ∷ []))
    unfolding iter_snapshot_deltas rounds emit
    iter_snapshot_deltas-failed count zero e l h f = absurd (omega arith)
    iter_snapshot_deltas-failed zero (suc more) e l h f = rw f refl
    iter_snapshot_deltas-failed (suc n) (suc more) e l (s, d) f =
        let next : suc 0 + n ≡ suc n = omega arith in
        let rest =
          rounds-failed n more 0 e (omega arith)
            ((λ k l. s k (omega arith)), λ k l. d k (omega arith)) (ap sample next ∙ f) in
        rw (s 0 (omega arith), rest, next)
          (sym (append_assoc (wait_until py sample clock interval 0) _ _))
