-- ===== src/Snapshot.antt =====
-- src/pidprobe/_snapshot.py: the document of a snapshot. The clock, the prober's interpreter and what
-- floats do are arguments. A payload is any JSON object, since the target may send what it likes.
pub mod Available
pub mod Sections
use pidprobe.Base.{
  ℕ, String, Bool, true, false, not, Option, none, some, if◌then◌else◌, ◌=ₛ◌, ◌<>◌, List, [], ◌∷◌,
}
use pidprobe.Base.Int.{ℤ, pos, eqb_ℤ}
use pidprobe.Base.Json.{
  Json, null, bool, int, str, obj, arr, float, Items, nil, cons, Fields, end, field, get,
}
use pidprobe.Base.Objects.{insert, update}
use pidprobe.Errors.{Result, ok, raised, ◌>>=◌, python, type_error, other_exception}
use pidprobe.Envelope.{Envelope, class_name}
use pidprobe.Collectors.Contract.{Collector, Texts}
use pidprobe.Collectors.Compose.{compose_collector_source}

abbrev pub schema_version : String
schema_version = "1.0"

-- What the document takes from floats: whether one is 0.0, `round(x, 3)`, and `float(n)`, which may
-- overflow.
pub record Floats (F : Type 0) : Type 0 where
  pub is_zero : F → Bool
  pub round : F → F
  pub of_int : ℤ → Result F

-- What the prober puts in by itself.
pub record Stamp (F : Type 0) : Type 0 where
  pub captured_at : String
  pub pidprobe_version : String
  pub prober : Fields F
  pub elapsed_ms : F

module _ {F : Type 0} (floats : Floats F) where
  -- `bool(value)`
  unfoldable pub is_true : Json F → Bool
  is_true null = false
  is_true (bool b) = b
  is_true (int n) = not (eqb_ℤ n (pos 0))
  is_true (float x) = not (floats.is_zero x)
  is_true (str s) = not (s =ₛ "")
  is_true (arr nil) = false
  is_true (arr (cons x xs)) = true
  is_true (obj end) = false
  is_true (obj (field k v d)) = true

  -- `_rounded(d.get(key))`
  unfoldable pub rounded : Option (Json F) → Result (Json F)
  rounded (some (int n)) = floats.of_int n >>= (λ x. ok (float (floats.round x)))
  rounded (some (float x)) = ok (float (floats.round x))
  rounded _ = ok null

  -- `payload.get(key) or default`
  unfoldable pub get_or : String → Fields F → Json F → Json F
  unfolding is_true
  get_or key d default = elim (get key d) [
    | none ↦ default
    | some value ↦ if is_true value then value else default
  ]

  -- `{**report, "duration_ms": _rounded(report.get("duration_ms"))}`
  unfoldable pub rounded_report : Json F → Result (Json F)
  unfolding rounded
  rounded_report (obj d) =
      rounded (get "duration_ms" d) >>= (λ duration. ok (obj (insert "duration_ms" duration d)))
  rounded_report value =
      raised
        (python type_error "TypeError" ("'" <> (class_name value <> "' object is not a mapping")))

  unfoldable pub rounded_reports : Items F → Result (Items F)
  unfolding rounded_report
  rounded_reports nil = ok nil
  rounded_reports (cons x xs) =
      rounded_report x >>= (λ y. rounded_reports xs >>= (λ ys. ok (cons y ys)))

  -- The comprehension over the reports. The elements of a text and of a dict are texts.
  unfoldable pub reports_of : Json F → Result (Json F)
  unfolding rounded_reports
  reports_of (arr xs) = rounded_reports xs >>= (λ ys. ok (arr ys))
  reports_of (obj end) = ok (arr nil)
  reports_of (obj (field k v d)) =
      raised (python type_error "TypeError" "'str' object is not a mapping")
  reports_of (str s) =
      if s =ₛ ""
      then ok (arr nil)
      else raised (python type_error "TypeError" "'str' object is not a mapping")
  reports_of value =
      raised
        (python type_error "TypeError" ("'" <> (class_name value <> "' object is not iterable")))

  -- `value.items()`
  unfoldable pub items_of : Json F → Result (Fields F)
  items_of (obj d) = ok d
  items_of value = raised (
      python other_exception "AttributeError"
        ("'" <> (class_name value <> "' object has no attribute 'items'")))

  unfoldable pub meta : (pid : ℕ) → Stamp F → (target stop_duration reports : Json F) → Fields F
  meta pid stamp target stop_duration reports = field "pid" (int (pos pid)) (
      field "captured_at" (str stamp.captured_at) (
        field "pidprobe_version" (str stamp.pidprobe_version) (
          field "prober" (obj stamp.prober) (
            field "target" target (
              field "stop_duration_ms" stop_duration (
                field "elapsed_ms" (float (floats.round stamp.elapsed_ms))
                  (field "collectors" reports end)))))))

  unfoldable pub document : (pid : ℕ) → Stamp F → (payload : Fields F) → Result (Fields F)
  unfolding rounded get_or reports_of items_of meta
  document pid stamp payload = do
    stop_duration ← rounded (get "stop_duration_ms" payload)
    reports ← reports_of (get_or "collectors" payload (arr nil))
    sections ← items_of (get_or "sections" payload (obj end))
    ok (
        update sections (
          field "schema_version" (str schema_version) (
            field "meta"
              (obj (meta pid stamp (get_or "target" payload (obj end)) stop_duration reports))
              end)))

  -- `take_snapshot`, with the collectors chosen. `execute` and `payload_of` are those of the pid, and
  -- the probe takes the time that the stamp has.
  unfoldable pub take_snapshot :
      (texts : Texts)
      → (available : Result (List Collector)) → (execute : String → Result (Envelope F))
      → (payload_of : Envelope F → Result (Fields F)) → (pid : ℕ) → Stamp F
      → Option (List Collector)
      → Result (Fields F)
  unfolding document
  take_snapshot texts available execute payload_of pid stamp collectors = do
    chosen ← elim collectors [ none ↦ available | some cs ↦ ok cs ]
    source ← compose_collector_source texts chosen
    envelope ← execute source
    payload ← payload_of envelope
    document pid stamp payload
