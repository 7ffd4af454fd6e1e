-- ===== src/Snapshot/Available.antt =====
-- src/pidprobe/_snapshot.py with src/pidprobe/registry.py and src/pidprobe/collectors: a snapshot of all
-- that is available, from the discovery to the document.
use pidprobe.Base.{refl, none, ◌≡◌, ℕ, String, false, List, [], ◌∷◌, All, arith}
use pidprobe.Base.Distinct.{has}
use pidprobe.Base.Json.{Fields}
use pidprobe.Base.Text
use pidprobe.Errors.{Result, ok, raised, ◌>>=◌}
use pidprobe.Envelope.{Envelope}
use pidprobe.Inject.{collected}
use pidprobe.Collectors.Contract.{Collector, names, Texts, reserved_section_names}
use pidprobe.Collectors.Compose.{parts, compose_collector_source, compose_collector_source_iff}
use pidprobe.Collectors.Driver.{Outcome, drive}
use pidprobe.Collectors.Isolation.{Settles, spec_names}
use pidprobe.Registry.{EntryPoint, available_collectors}
use pidprobe.Registry.Available.{IsContained, given}
use pidprobe.Registry.Runnable.{available_collectors-compose}
use pidprobe.Registry.Valid.{HasSectionName, available_collectors-HasSectionName}
use pidprobe.Commands.{Sources, builtin_collectors}
use pidprobe.Commands.Masking.{some_builtin, distinct_builtin}
use pidprobe.Snapshot.{Floats, Stamp, document, take_snapshot}
use pidprobe.Snapshot.Sections.{IsSnapshot, document-drive}

unreserved :
    {F : Type 0} (t : Texts) (compiles : String → Result (Unit {0})) (cs : List Collector)
    (specs : List (String × Outcome F))
    → spec_names specs ≡ names cs
    → All (HasSectionName t compiles) cs
    → All (λ (name, outcome). has name reserved_section_names ≡ false) specs
unreserved t compiles cs [] e h = tt
unreserved t compiles [] ((name, outcome) ∷ specs) e h = ground (arith, e)
unreserved t compiles (c ∷ cs) ((name, outcome) ∷ specs) e h =
    let heads : name ≡ c.name = ground (arith, e) in
    let tails : spec_names specs ≡ names cs = ground (arith, e) in
    (rw heads (h.0.1), unreserved t compiles cs specs tails h.1)

-- Whatever plugins are installed, if they raise nothing but `Exception`s, and the names of the built-in
-- collectors are identifiers: if each section of what is available returns in the target, or raises an
-- `Exception` whose text can be taken, then the run gives a payload and the prober a document, which has
-- under each name the section's data, or null if it raised, and under the keys of the format the version
-- and the metadata, with the reports of the sections in order.
pub document-IsSnapshot :
    {F : Type 0} (floats : Floats F) (sources : Sources) (t : Texts)
    (compiles : String → Result (Unit {0})) (points : List EntryPoint)
    (found : List Collector × List String) (pid : ℕ) (stamp : Stamp F) (duration : ℕ → F)
    (target : Fields F) (stop_duration : F) (specs : List (String × Outcome F))
    → All (IsContained t compiles) points
    → All (HasSectionName t compiles) (builtin_collectors sources)
    → available_collectors t compiles (builtin_collectors sources) points ≡ ok found
    → spec_names specs ≡ names found.0
    → All (λ (name, outcome). Settles outcome) specs
    → (sent : Fields F) × (drive duration target stop_duration specs ≡ collected sent)
      × (doc : Fields F) × (document floats pid stamp sent ≡ ok doc)
      × IsSnapshot floats pid stamp duration target stop_duration specs doc
document-IsSnapshot floats sources t compiles points found pid stamp duration target stop_duration
      specs contained checked h e settled =
    let builtin = builtin_collectors sources in
    let composed =
      given found
        (available_collectors-compose t compiles builtin points contained (some_builtin sources)
          (distinct_builtin sources))
        h in
    let names =
      given found (available_collectors-HasSectionName t compiles builtin points checked contained)
        h in
    let (some_, unique) = (compose_collector_source_iff t found.0).0 composed in
    document-drive floats pid stamp duration target stop_duration specs settled (rw e unique)
      (unreserved t compiles found.0 specs e names)

take_snapshot-document :
    {F : Type 0} (floats : Floats F) (t : Texts) (available : Result (List Collector))
    (execute : String → Result (Envelope F)) (payload_of : Envelope F → Result (Fields F)) (pid : ℕ)
    (stamp : Stamp F) (cs : List Collector) (source : String) (sent doc : Fields F)
    (answer : Result (Envelope F))
    → available ≡ ok cs
    → compose_collector_source t cs ≡ ok source
    → execute source ≡ answer
    → (answer >>= payload_of) ≡ ok sent
    → document floats pid stamp sent ≡ ok doc
    → take_snapshot floats t available execute payload_of pid stamp none ≡ ok doc
unfolding take_snapshot
take_snapshot-document floats t available execute payload_of pid stamp cs source sent doc
      (ok envelope) h k l m n =
    rw (h, k, l, m) n
take_snapshot-document floats t available execute payload_of pid stamp cs source sent doc (raised e)
      h k l m n =
    ground (arith, m)

-- Whatever plugins are installed, if they raise nothing but `Exception`s, and the names of the built-in
-- collectors are identifiers: if each section of what is available returns in the target, or raises an
-- `Exception` whose text can be taken, and the payload of a run of the composed source arrives at the
-- prober, then a snapshot is taken. It has under each name the section's data, or null if it raised, and
-- under the keys of the format the version and the metadata, with the reports of the sections in order.
pub take_snapshot-IsSnapshot :
    {F : Type 0} (floats : Floats F) (sources : Sources) (t : Texts)
    (compiles : String → Result (Unit {0})) (points : List EntryPoint)
    (found : List Collector × List String) (execute : String → Result (Envelope F))
    (payload_of : Envelope F → Result (Fields F)) (pid : ℕ) (stamp : Stamp F) (duration : ℕ → F)
    (target : Fields F) (stop_duration : F) (specs : List (String × Outcome F))
    → All (IsContained t compiles) points
    → All (HasSectionName t compiles) (builtin_collectors sources)
    → available_collectors t compiles (builtin_collectors sources) points ≡ ok found
    → spec_names specs ≡ names found.0
    → All (λ (name, outcome). Settles outcome) specs
    → ((sent : Fields F)
        → drive duration target stop_duration specs ≡ collected sent
        → (execute (Text.join "\n" (parts t found.0)) >>= payload_of) ≡ ok sent)
    → (doc : Fields F) × (take_snapshot floats t
          (available_collectors t compiles (builtin_collectors sources) points >>= (λ r. ok r.0))
          execute
          payload_of
          pid
          stamp
          none
        ≡ ok doc)
      × IsSnapshot floats pid stamp duration target stop_duration specs doc
take_snapshot-IsSnapshot floats sources t compiles points found execute payload_of pid stamp
      duration target stop_duration specs contained checked h e settled arrives =
    let builtin = builtin_collectors sources in
    let composed =
      given found
        (available_collectors-compose t compiles builtin points contained (some_builtin sources)
          (distinct_builtin sources))
        h in
    let (sent, driven, doc, made, good) =
      document-IsSnapshot floats sources t compiles points found pid stamp duration target
        stop_duration specs contained checked h e settled in
    (
      doc,
      take_snapshot-document floats t _ execute payload_of pid stamp found.0
          (Text.join "\n" (parts t found.0)) sent doc _ (rw h refl) composed refl
          (arrives sent driven) made,
      good,
    )
