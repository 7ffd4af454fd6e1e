-- ===== src/Envelope.antt =====
-- src/pidprobe/_envelope.py: the validation of what the target sent. JSON decoding is the standard
-- library's, and so an argument. `repr` is the text of a JSON value under `!r`.
pub mod Laws
use pidprobe.Base.{
  ℕ, String, ◌<>◌, Bool, true, false, ◌||◌, Option, none, some, ◌=ₛ◌, if◌then◌else◌,
}
use pidprobe.Base.Decimal.{show}
use pidprobe.Base.Json.{Json, null, bool, int, float, str, arr, obj, Fields, get}
use pidprobe.Errors.{
  ErrorInfo, Exception, python, type_error, Result, ok, raised, ◌>>=◌, probe, channel,
  channel_error, target_error,
}

pub data Status : Type 0 where
  succeeded failed : Status

pub record Envelope (F : Type 0) : Type 0 where
  pub status : Status
  pub error : Option ErrorInfo
  pub payload : Option (Fields F)

-- What `json.loads` does: it gives a value, or raises a JSONDecodeError, whose text this is, or something
-- else: a ValueError for an integer with too many digits, a RecursionError for a deep nesting.
pub data Loaded (F : Type 0) : Type 0 where
  decoded : Json F → Loaded F
  malformed : (message : String) → Loaded F
  breaks : Exception → Loaded F

abbrev pub unhashable {ℓ} : {A : Type ℓ} → String → Result A
unhashable type_name =
    raised (python type_error "TypeError" ("unhashable type: '" <> (type_name <> "'")))

abbrev pub class_name : {F : Type 0} → Json F → String
class_name null = "NoneType"
class_name (bool b) = "bool"
class_name (int n) = "int"
class_name (float x) = "float"
class_name (str s) = "str"
class_name (arr xs) = "list"
class_name (obj d) = "dict"

module _ {F : Type 0} (repr : Json F → String) where
  -- `str(value)`
  unfoldable pub text : Json F → String
  text (str s) = s
  text value = repr value

  -- `str(d.get(key, default))`
  unfoldable pub text_at : String → Fields F → String → String
  unfolding text
  text_at key d default = elim (get key d) [ none ↦ default | some value ↦ text value ]

  unfoldable pub parse_error_info : Status → Option (Json F) → Result (Option ErrorInfo)
  unfolding text_at
  parse_error_info failed none = channel_error "envelope has status 'error' but no error details"
  parse_error_info failed (some null) =
      channel_error "envelope has status 'error' but no error details"
  parse_error_info succeeded none = ok none
  parse_error_info succeeded (some null) = ok none
  parse_error_info status (some (obj d)) = ok (
      some (record {
        type_name = text_at "type" d "UnknownError";
        message = text_at "message" d "";
        traceback = text_at "traceback" d "";
      }))
  parse_error_info status (some value) =
      channel_error ("envelope 'error' must be an object or null, got " <> repr value)

  -- `status not in _VALID_STATUSES`: a lookup in a frozenset, which hashes the value.
  unfoldable pub parse_status : Option (Json F) → Result Status
  parse_status none = channel_error ("envelope has an unknown status: " <> "None")
  parse_status (some (str s)) =
      if s =ₛ "ok"
      then ok succeeded
      else if s =ₛ "error"
      then ok failed
      else channel_error ("envelope has an unknown status: " <> repr (str s))
  parse_status (some (arr xs)) = unhashable "list"
  parse_status (some (obj d)) = unhashable "dict"
  parse_status (some value) = channel_error ("envelope has an unknown status: " <> repr value)

  unfoldable pub parse_payload : Option (Json F) → Result (Option (Fields F))
  parse_payload none = ok none
  parse_payload (some null) = ok none
  parse_payload (some (obj d)) = ok (some d)
  parse_payload (some value) =
      channel_error ("envelope 'payload' must be an object or null, got " <> repr value)

  abbrev pub parse_rest : Status → Fields F → Result (Envelope F)
  parse_rest status d = do
    error ← parse_error_info status (get "error" d)
    payload ← parse_payload (get "payload" d)
    ok (record { status = status; error = error; payload = payload })

  unfoldable pub parse_fields : Fields F → Result (Envelope F)
  unfolding parse_status parse_error_info parse_payload
  parse_fields d = do status ← parse_status (get "status" d); parse_rest status d

  unfoldable pub parse_decoded : Json F → Result (Envelope F)
  unfolding parse_fields
  parse_decoded (obj d) = parse_fields d
  parse_decoded value = channel_error ("expected a JSON object envelope, got " <> class_name value)

  unfoldable pub parse_envelope : (String → Loaded F) → String → Result (Envelope F)
  unfolding parse_decoded
  parse_envelope loads raw = elim (loads raw) [
    | decoded value ↦ parse_decoded value
    | malformed message ↦ channel_error ("target sent malformed JSON: " <> message)
    | breaks e ↦ raised e
  ]

unfoldable pub payload_of : {F : Type 0} → ℕ → Envelope F → String → Result (Fields F)
payload_of pid envelope action = elim envelope.status [
  | failed ↦ elim envelope.error [
    | none ↦ channel_error ("target reported an error without details for pid " <> show pid)
    | some error ↦ raised (probe (target_error pid error action))
  ]
  | succeeded ↦ elim envelope.payload [
    | none ↦ channel_error ("target reported success without a payload for pid " <> show pid)
    | some payload ↦ ok payload
  ]
]
