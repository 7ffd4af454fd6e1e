-- ===== src/Demo/Growth.antt =====
-- demo/app.py: how the leak grows, and that what has leaked is kept.
use mathlib.Core.List.{append_assoc, append-nil}
use pidprobe.Base.{
  ◌≡◌, refl, sym, ap, ◌∙◌, ℕ, zero, suc, ◌+◌, String, Bool, true, false, none, some, List, [], ◌∷◌,
  ◌++◌, arith,
}
use pidprobe.Demo.{LeakedRecord, Leak, leak_worker, start_leak, stop_leak}

-- So many rounds of the worker.
abbrev pub rounds : ℕ → Leak → Leak
rounds zero s = s
rounds (suc n) s = rounds n (leak_worker s)

-- The records of a stretch of indices.
abbrev pub records : ℕ → ℕ → List (ℕ × String) → List LeakedRecord
records index zero rows = []
records index (suc n) rows = record { index = index; rows = rows } ∷ records (suc index) n rows

-- The worker runs, and has come to an index.
abbrev pub running : ℕ → List (ℕ × String) → List LeakedRecord → Leak
running index rows leaked = record {
  is_stopped = false;
  worker = some index;
  widget_rows = rows;
  leaked = leaked;
}

rounds-running :
    (n index : ℕ) (rows : List (ℕ × String)) (leaked : List LeakedRecord)
    → rounds n (running index rows leaked)
      ≡ running (index + n) rows (leaked ++ records index n rows)
unfolding leak_worker
rounds-running zero index rows leaked =
    let same : index ≡ index + 0 = omega arith in
    ap (λ i. running i rows leaked) same ∙ ap (running (index + 0) rows) (sym (append-nil leaked))
rounds-running (suc n) index rows leaked =
    let next : suc index + n ≡ index + suc n = omega arith in
    rounds-running n (suc index) rows (leaked ++ (record { index = index; rows = rows } ∷ []))
    ∙ ap
        (λ i.
          running i rows (
            (leaked ++ (record { index = index; rows = rows } ∷ [])) ++ records (suc index) n rows))
        next
    ∙ ap (running (index + suc n) rows) (
        append_assoc leaked (record { index = index; rows = rows } ∷ [])
          (records (suc index) n rows))

-- Once the leak was started, each round of the worker adds one record, numbered from 0, to what had leaked
-- before; stopping it ends the worker at its next round, and all that leaked is kept.
pub leak_worker-records :
    (n : ℕ) (rows : List (ℕ × String)) (before : List LeakedRecord) (is_stopped : Bool)
    → leak_worker (
        stop_leak (
          rounds n (
            start_leak (record {
              is_stopped = is_stopped;
              worker = none;
              widget_rows = rows;
              leaked = before;
            }))))
      ≡ record {
        is_stopped = true;
        worker = none;
        widget_rows = rows;
        leaked = before ++ records 0 n rows;
      }
unfolding leak_worker start_leak stop_leak
leak_worker-records n rows before is_stopped = rw (rounds-running n 0 rows before) refl
