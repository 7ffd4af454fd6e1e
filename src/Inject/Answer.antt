-- ===== src/Inject/Answer.antt =====
-- src/pidprobe/_inject.py and src/pidprobe/_envelope.py together: what the script sends is what the prober reads.
use pidprobe.Base.{◌≡◌, refl, String, Option, none, some}
use pidprobe.Base.Json.{Json, obj, Fields, get}
use pidprobe.Errors.{Result, ok, raised}
use pidprobe.Envelope.{Loaded, decoded, Envelope, succeeded, failed, parse_envelope, parse_decoded}
use pidprobe.Inject.{
  Collected, collected, failed_with, ok_envelope, error_envelope, reply, deliver, script,
}

-- What the prober should learn from a run of the collector.
abbrev pub expected : {F : Type 0} → Collected (Fields F) → Option (Envelope F)
expected (collected d) = some (record { status = succeeded; error = none; payload = some d })
expected (failed_with failure) = elim failure.text [
  | none ↦ none
  | some message ↦ some (record {
    status = failed;
    error = some (record {
      type_name = failure.type_name;
      message = message;
      traceback = failure.traceback;
    });
    payload = none;
  })
]

abbrev pub accepted : {F : Type 0} → Result (Envelope F) → Option (Envelope F)
accepted (ok envelope) = some envelope
accepted (raised e) = none

-- The failure that counts: the collector's, or that of serialising its payload.
abbrev pub settled :
    {F P : Type 0} → (P → Collected (Fields F)) → Collected P → Collected (Fields F)
settled serialise (collected payload) = serialise payload
settled serialise (failed_with failure) = failed_with failure

-- `json.dumps` of the payload, where it gives an object.
abbrev pub as_json : {F : Type 0} → Collected (Fields F) → Collected (Json F)
as_json (collected d) = collected (obj d)
as_json (failed_with failure) = failed_with failure

module _ {F : Type 0} (repr : Json F → String) (loads : String → Loaded F)
    (encode : Json F → String) where
  -- What the prober makes of what arrived.
  abbrev pub read : Option String → Option (Envelope F)
  read none = none
  read (some raw) = accepted (parse_envelope repr loads raw)

  -- `json.loads` gives back what `json.dumps` wrote of a document that was sent.
  abbrev pub DecodesSent : Option (Json F) → Type 0
  DecodesSent none = Unit
  DecodesSent (some j) = loads (encode j) ≡ decoded j

  read-encode :
      (j : Json F)
      → loads (encode j) ≡ decoded j
      → read (some (encode j)) ≡ accepted (parse_decoded repr j)
  unfolding parse_envelope
  read-encode j h = rw (h, parse_envelope)

  read-error :
      (type_name : String) (text : Option String) (traceback : String)
      → DecodesSent (error_envelope type_name text traceback)
      → read (deliver encode some (error_envelope type_name text traceback))
        ≡ expected
            (failed_with (record { type_name = type_name; text = text; traceback = traceback }))
  unfolding deliver parse_decoded error_envelope get
  read-error type_name none traceback h = refl
  read-error type_name (some message) traceback h = read-encode _ h

  read-reply :
      (outcome : Collected (Fields F))
      → DecodesSent (reply (as_json outcome))
      → read (deliver encode some (reply (as_json outcome))) ≡ expected outcome
  unfolding reply deliver parse_decoded get
  read-reply (collected d) h = read-encode (ok_envelope (obj d)) h
  read-reply (failed_with failure) h = read-error failure.type_name failure.text failure.traceback h

  -- If the document that is sent is decoded as it was encoded, and the channel delivers what is
  -- written, then the prober reads exactly what the collector came to: its payload, or the class,
  -- text and traceback of the failure of collecting or of serialising. Nothing arrives only if the
  -- text of that failure cannot be taken.
  pub read-script :
      {P : Type 0} (serialise : P → Collected (Fields F)) (outcome : Collected P)
      → DecodesSent (reply (as_json (settled serialise outcome)))
      → read (script (λ payload. as_json (serialise payload)) encode some outcome)
        ≡ expected (settled serialise outcome)
  unfolding script
  read-script serialise (failed_with failure) h = read-reply (failed_with failure) h
  read-script serialise (collected payload) h = read-reply (serialise payload) h
