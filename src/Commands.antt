-- ===== src/Commands.antt =====
-- src/pidprobe/_commands.py: the handlers of the subcommands, and src/pidprobe/collectors/__init__.py: the
-- collectors that come with the package. What they call are arguments, as are the texts that
-- `json.dumps` gives. Writing to stdout does not fail here; a handler that it fails for raises.
pub mod Masking
pub mod Printing
use pidprobe.Base.{
  true, false, ℕ, String, ◌<>◌, Bool, Option, none, some, List, [], ◌∷◌, ◌++◌, ◌=ₛ◌, if◌then◌else◌,
}
use pidprobe.Base.Json.{Fields}
use pidprobe.Errors.{Exception, Result, ok, raised, ◌>>=◌}
use pidprobe.Collectors.Contract.{Collector}
use pidprobe.Diagnosis.Check.{Diagnosis, is_attachable}
use pidprobe.Diff.Sections.{SnapshotDelta}
use pidprobe.Diff.Series.{Event, slept, sampled, yielded, failed}
use pidprobe.Exits.{exit_ok, exit_diagnosis_failed}

-- `build_stacks_collector`, for the text of the snippet with the switch of the masking in it.
unfoldable pub build_stacks_collector : (source : Bool → String) → (is_masked : Bool) → Collector
build_stacks_collector source is_masked = record {
  name = "stacks";
  source = source is_masked;
  description = "Per-thread call stacks with file, line, function and locals";
}

-- The texts of the snippets.
pub record Sources : Type 0 where
  pub stacks : Bool → String
  pub objects : String
  pub gc : String
  pub fds : String

module _ (sources : Sources) where
  unfoldable pub builtin_collectors : List Collector
  builtin_collectors =
      build_stacks_collector sources.stacks true
      ∷ record {
        name = "objects";
        source = sources.objects;
        description = "Counts of GC-tracked objects grouped by type, top N by count";
      }
      ∷ record {
        name = "gc";
        source = sources.gc;
        description = "Garbage collector counts, thresholds and per-generation stats";
      }
      ∷ record {
        name = "fds";
        source = sources.fds;
        description = "Open file descriptors and sockets, with kind and target";
      }
      ∷ []

  unfoldable pub unmasked_collectors : List Collector → List Collector
  unmasked_collectors [] = []
  unmasked_collectors (c ∷ cs) =
      let unmasked = build_stacks_collector sources.stacks false in
      let rest = unmasked_collectors cs in
      if c.name =ₛ unmasked.name then unmasked ∷ rest else c ∷ rest

  unfoldable pub snap_collectors :
      (available : Result (List Collector)) → (is_masked : Bool) → Result (Option (List Collector))
  unfolding unmasked_collectors
  snap_collectors available is_masked =
      if is_masked then ok none else (available >>= (λ cs. ok (some (unmasked_collectors cs))))

-- What a handler writes to stdout, and the code that it returns or the exception that leaves it.
abbrev pub Handled : Type 0
Handled = List String × Result ℕ

-- `write_json`
unfoldable pub write_json {ℓ} :
    {D : Type ℓ} → (pretty compact : D → String) → (is_pretty : Bool) → D → String
write_json pretty compact is_pretty document =
    (if is_pretty then pretty document else compact document) <> "\n"

unfoldable pub printed : {D : Type 0} → (D → String) → Result D → Handled
printed line (ok document) = (line document ∷ [], ok exit_ok)
printed line (raised e) = ([], raised e)

-- `run_snap`: the collectors are chosen before the snapshot is taken.
unfoldable pub run_snap :
    {F : Type 0}
    → (line : Fields F → String) → Result (Option (List Collector))
    → (take_snapshot : Option (List Collector) → Result (Fields F)) → Handled
unfolding printed
run_snap line chosen take_snapshot = printed line (chosen >>= take_snapshot)

unfoldable pub run_eval : {E : Type 0} → (line : E → String) → Result E → Handled
unfolding printed
run_eval line evaluation = printed line evaluation

-- The `for` statement of `run_diff`, over what the generator does.
unfoldable pub run_diff :
    {F : Type 0} → (line : SnapshotDelta F → String) → List (Event F) → Handled
run_diff line [] = ([], ok exit_ok)
run_diff line (yielded delta ∷ events) =
    let (written, result) = run_diff line events in (line delta ∷ written, result)
run_diff line (failed e ∷ events) = ([], raised e)
run_diff line (slept duration ∷ events) = run_diff line events
run_diff line (sampled n ∷ events) = run_diff line events

-- `run_doctor`, for the report in the format that was asked for.
unfoldable pub run_doctor : (report : Diagnosis → String) → Result Diagnosis → Handled
run_doctor report (raised e) = ([], raised e)
run_doctor report (ok diagnosis) =
    (report diagnosis ∷ [], ok (if is_attachable diagnosis then exit_ok else exit_diagnosis_failed))
