-- ===== src/Tests/Snapshots.antt =====
-- A prober with two plugins, one of which is broken, and a small target.
use pidprobe.Base.{
  sym, ◌∙◌, none, ◌≡◌, refl, ℕ, ◌≤◌, String, ◌<>◌, true, not, some, List, [], ◌∷◌, ◌++◌, All, ◌==◌,
  ◌=ₛ◌, if◌then◌else◌, arith,
}
use pidprobe.Base.Distinct.{has, distinct, AllDistinct}
use pidprobe.Base.Sort.{sort, Reordered}
use pidprobe.Base.Json.{int, obj, Fields, end, field}
use pidprobe.Base.Int.{pos}
use pidprobe.Errors.{◌>>=◌, Exception, Result, ok, raised, python, value_error}
use pidprobe.Envelope.{Envelope, succeeded}
use pidprobe.Inject.{Collected, collected}
use pidprobe.Collectors.Contract.{Collector, names, Texts, new_collector}
use pidprobe.Collectors.Compose.{compose_collector_source}
use pidprobe.Collectors.Driver.{Outcome, returned, failed, drive}
use pidprobe.Collectors.Isolation.{Settles, spec_names, payload, drive-payload}
use pidprobe.Registry.{
  EntryPoint, Candidate, object, as_collector, load, load_all, accepted, goes_before,
  discover_collectors, available_collectors,
}
use pidprobe.Registry.Available.{Gives, IsContained}
use pidprobe.Registry.Runnable.{
  point_names, AreFirstClaims, available_collectors_iff, discover_collectors-Reordered,
}
use pidprobe.Registry.Names.{at_most}
use pidprobe.Registry.Valid.{HasSectionName}
use pidprobe.Commands.{build_stacks_collector, Sources, builtin_collectors}
use pidprobe.Commands.Masking.{IsRunnable, unmasked_collectors-compose}
use pidprobe.Diagnosis.Check.{Check}
use pidprobe.Doctor.Capture.{warning, Logger, Record, is_among, listening, recorded, captured}
use pidprobe.Doctor.Prober.{Environment}
use pidprobe.Doctor.Built.{Verdicts}
use pidprobe.Doctor.Diagnose.{diagnose}
use pidprobe.Doctor.Verdicts.{verdicts}
use pidprobe.Doctor.Plugins.{diagnose-available_collectors}
use pidprobe.Tests.Preflight.{machine, machine_checkable}
use pidprobe.Snapshot.{Floats, Stamp, take_snapshot}
use pidprobe.Snapshot.Sections.{IsSnapshot}
use pidprobe.Snapshot.Available.{take_snapshot-IsSnapshot}

abbrev texts : Texts
texts = record {
  is_identifier = λ name. not (name =ₛ "");
  repr = λ text. "'" <> (text <> "'");
  dedent = λ text. text;
  indent = λ text prefix. prefix <> text;
}

abbrev compiles : String → Result (Unit {0})
compiles source = ok tt

abbrev cache : Candidate
cache = record {
  type_name = "Cache";
  attribute = λ name. ok (some (if name =ₛ "name" then "cache" else "data = 1"));
}

abbrev broken : EntryPoint
broken = record {
  name = "alpha";
  value = "alpha:collector";
  load = raised (python value_error "ValueError" "no");
}

abbrev caching : EntryPoint
caching = record { name = "zeta"; value = "zeta:collector"; load = ok (object cache) }

abbrev points : List EntryPoint
points = caching ∷ broken ∷ []

abbrev sources : Sources
sources = record {
  stacks = λ is_masked. "data = 0";
  objects = "data = 1";
  gc = "data = 2";
  fds = "data = 3";
}

caching-IsContained : IsContained texts compiles caching
unfolding as_collector new_collector compose_collector_source distinct has
caching-IsContained e h = ground (arith, h)

broken-IsContained : IsContained texts compiles broken
broken-IsContained e h =
    let same : ◌≡◌ {A = Exception} (python value_error "ValueError" "no") e = ground (arith, h) in
    rw⁻¹ same refl

points-AreContained : All (IsContained texts compiles) points
points-AreContained = (caching-IsContained, (broken-IsContained, tt))

available_collectors_iff_example :
    Gives
      (AreFirstClaims texts compiles (builtin_collectors sources) points)
      (available_collectors texts compiles (builtin_collectors sources) points)
available_collectors_iff_example =
    available_collectors_iff texts compiles (builtin_collectors sources) points points-AreContained

unmasked_collectors-compose_example :
    Gives
      (IsRunnable sources texts)
      (available_collectors texts compiles (builtin_collectors sources) points)
unmasked_collectors-compose_example =
    unmasked_collectors-compose sources texts compiles points points-AreContained

points-AllDistinct : AllDistinct (point_names points)
unfolding has
points-AllDistinct = (refl, (refl, tt))

discover_collectors-Reordered_example :
    discover_collectors texts compiles points
    ≡ discover_collectors texts compiles (broken ∷ caching ∷ [])
discover_collectors-Reordered_example =
    discover_collectors-Reordered texts compiles points (broken ∷ caching ∷ []) points-AllDistinct
      (Reordered.swap caching broken [])

-- What is available of them: the built-in collectors and the cache.
abbrev found : List Collector × List String
found = (
  builtin_collectors sources
      ++ (record { name = "cache"; source = "data = 1"; description = "data = 1" } ∷ []),
  "skipping collector plugin 'alpha' (alpha:collector): it could not be loaded" ∷ [],
)

found_available : available_collectors texts compiles (builtin_collectors sources) points ≡ ok found
unfolding available_collectors discover_collectors sort goes_before at_most load_all load
    as_collector new_collector compose_collector_source distinct has accepted builtin_collectors
    build_stacks_collector
found_available = refl

abbrev floats : Floats ℕ
floats = record { is_zero = λ x. x == 0; round = λ x. x; of_int = λ n. ok 0 }

abbrev stamp : Stamp ℕ
stamp = record {
  captured_at = "2026-01-01T00:00:00Z";
  pidprobe_version = "0.1.0";
  prober = end;
  elapsed_ms = 12;
}

abbrev specs : List (String × Outcome ℕ)
specs =
    ("stacks", returned (obj (field "thread_count" (int (pos 2)) end)))
    ∷ ("objects", failed "MemoryError" "Traceback" (collected "out of memory"))
    ∷ ("gc", returned (int (pos 1)))
    ∷ ("fds", returned (int (pos 5)))
    ∷ ("cache", returned (int (pos 9)))
    ∷ []

builtin-HasSectionName : All (HasSectionName texts compiles) (builtin_collectors sources)
unfolding builtin_collectors build_stacks_collector has
builtin-HasSectionName = ((refl, refl), ((refl, refl), ((refl, refl), ((refl, refl), tt))))

specs_found : spec_names specs ≡ names found.0
unfolding builtin_collectors build_stacks_collector
specs_found = refl

abbrev sent_payload : Fields ℕ
sent_payload = payload (λ i. i) end 12 specs

abbrev reply : Envelope ℕ
reply = record { status = succeeded; error = none; payload = some sent_payload }

all_settle : All (λ (name, outcome). Settles outcome) specs
all_settle = (tt, (tt, (tt, (tt, (tt, tt)))))

payload_arrives :
    (sent : Fields ℕ)
    → drive (λ i. i) end 12 specs ≡ collected sent
    → (ok reply >>= (λ envelope. ok sent_payload)) ≡ ok sent
payload_arrives sent h =
    let whole_path : ◌≡◌ {A = Collected (Fields ℕ)} (collected sent_payload) (collected sent) =
      sym (drive-payload (λ i. i) end 12 specs all_settle) ∙ h in
    let same : sent_payload ≡ sent = ground (arith, whole_path) in rw⁻¹ same refl

take_snapshot-IsSnapshot_example :
    (doc : Fields ℕ) × (take_snapshot floats texts
        (available_collectors texts compiles (builtin_collectors sources) points >>= (λ r. ok r.0))
        (λ source. ok reply)
        (λ envelope. ok sent_payload)
        7
        stamp
        none
      ≡ ok doc)
    × IsSnapshot floats 7 stamp (λ i. i) end 12 specs doc
take_snapshot-IsSnapshot_example =
    take_snapshot-IsSnapshot floats sources texts compiles points found (λ source. ok reply)
      (λ envelope. ok sent_payload) 7 stamp (λ i. i) end 12 specs points-AreContained
      builtin-HasSectionName found_available specs_found all_settle payload_arrives

-- The machine of the other tests, with what this discovery logs.
abbrev doctor : Environment
doctor = record {
  prober = machine.prober;
  runtime = machine.runtime;
  has_remote_exec = true;
  remote_debug_enabled = true;
  implementation = "CPython";
  version = "3.14.0";
  socket_channel = machine.socket_channel;
  tempfile_channel = machine.tempfile_channel;
  collectors = "stacks" ∷ [];
  messages = found.1;
}

-- The logger as Python makes it, below a root logger that lets errors pass only; and the records of the
-- discovery, each with one of the two levels that the registry logs with.
abbrev registry_logger : Logger
registry_logger = record { level = 0; propagate = true; handlers = [] }

abbrev logged : List Record
logged = (40, "skipping collector plugin 'alpha' (alpha:collector): it could not be loaded") ∷ []

logged-levels : All (λ (level, message). warning ≤ level) logged
logged-levels = (omega arith, tt)

diagnose-available_collectors_example :
    (checks : List Check) × (diagnose doctor (some 7)
      ≡ ok (record { pid = some 7; checks = checks }))
    × Verdicts (verdicts doctor (some 7)) checks
    × (doctor.messages ≡ found.1)
unfolding captured recorded listening is_among
diagnose-available_collectors_example =
    diagnose-available_collectors texts compiles (builtin_collectors sources) points found doctor
      (some 7) 40 0 1 registry_logger logged points-AreContained found_available (omega arith) refl
      logged-levels refl refl machine_checkable
