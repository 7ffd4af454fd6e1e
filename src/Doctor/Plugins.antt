-- ===== src/Doctor/Plugins.antt =====
-- src/pidprobe/_doctor.py with src/pidprobe/registry.py: a diagnosis does not depend on what plugins do.
use pidprobe.Base.{◌≡◌, ap, ◌∙◌, ℕ, ◌≤◌, ◌<◌, String, false, Option, List, All}
use pidprobe.Errors.{Result, ok}
use pidprobe.Collectors.Contract.{Collector, Texts}
use pidprobe.Registry.{EntryPoint, available_collectors}
use pidprobe.Registry.Available.{IsContained, given, available_collectors-IsAvailable}
use pidprobe.Diagnosis.Check.{Check}
use pidprobe.Doctor.Capture.{warning, Logger, Record, is_among, texts, captured, captured-texts}
use pidprobe.Doctor.Prober.{Environment}
use pidprobe.Doctor.Built.{Verdicts}
use pidprobe.Doctor.Diagnose.{diagnose}
use pidprobe.Doctor.Verdicts.{verdicts, HasCheckable, diagnose_total}

-- If plugins raise nothing but `Exception`s, what the discovery logs are records of its messages, at
-- the level of a warning or above, the doctor's messages are those that its handler, a new one,
-- captures of them, warnings are not switched off for the process, and a
-- target, if there is one, can be checked (`os.kill` sends its signal or fails with an `OSError`, and
-- the output of what is run to learn of it can be decoded), then a diagnosis is made, each of its checks with its explanation and failing exactly under its condition, and the messages that it is
-- made from are all that the discovery logged, in order.
pub diagnose-available_collectors :
    (t : Texts) (compiles : String → Result (Unit {0})) (builtin : List Collector)
    (points : List EntryPoint) (found : List Collector × List String) (e : Environment)
    (pid : Option ℕ) (ancestors_level disabled handler : ℕ) (logger : Logger)
    (records : List Record)
    → All (IsContained t compiles) points
    → available_collectors t compiles builtin points ≡ ok found
    → disabled < warning
    → is_among handler logger.handlers ≡ false
    → All (λ (level, message). warning ≤ level) records
    → texts records ≡ found.1
    → e.messages ≡ (captured ancestors_level disabled handler logger records).0
    → HasCheckable e pid
    → (checks : List Check) × (diagnose e pid ≡ ok (record { pid = pid; checks = checks }))
      × Verdicts (verdicts e pid) checks
      × (e.messages ≡ found.1)
diagnose-available_collectors t compiles builtin points found e pid a disabled handler logger
      records contained h d f levels logged m valid =
    let spoken =
      given found (available_collectors-IsAvailable t compiles builtin points contained) h in
    let heard : e.messages ≡ found.1 =
      m ∙ ap (λ c. c.0) (captured-texts a disabled handler logger records d f levels) ∙ logged in
    let (checks, made, right) = diagnose_total e pid (rw heard (spoken.1)) valid in
    (checks, made, right, heard)
