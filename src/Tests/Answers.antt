-- ===== src/Tests/Answers.antt =====
-- Answers of the target, and the frames of the script.
use pidprobe.Base.{
  ◌≡◌, refl, ◌⊎◌, String, Bool, true, none, some, [], ◌∷◌, ◌=ₛ◌, if◌then◌else◌, arith,
}
use pidprobe.Base.Json.{Json, null, str, arr, obj, nil, Fields, end, field, get}
use pidprobe.Errors.{Exception, python, other_exception, ok, raised}
use pidprobe.Envelope.{
  Loaded, decoded, malformed, breaks, Envelope, succeeded, failed, parse_envelope, payload_of,
}
use pidprobe.Envelope.Laws.{
  Answer, is_channel_error, is_type_error, is_unhashable, payload_of-parse_envelope,
  parse_envelope-raised, parse_envelope-unhashable,
}
use pidprobe.Inject.{Failure, collected, failed_with, error_envelope, reply, script}
use pidprobe.Inject.Answer.{as_json, read, read-script}
use pidprobe.Inject.Frames.{own_frames, strip, strip-own_frames}

abbrev Doc : Type 0
Doc = Json Bool

abbrev repr : Doc → String
repr j = "?"

abbrev answer : Fields Bool
answer = field "status" (str "ok") (field "error" null (field "payload" (obj end) end))

abbrev nested_status : Fields Bool
nested_status = field "status" (arr nil) end

-- A decoder that knows four messages.
abbrev too_deep : Exception
too_deep = python other_exception "RecursionError" "maximum recursion depth exceeded"

abbrev loads : String → Loaded Bool
loads raw =
    if raw =ₛ "answer"
    then decoded (obj answer)
    else if raw =ₛ "nested"
    then decoded (obj nested_status)
    else if raw =ₛ "null"
    then decoded null
    else if raw =ₛ "deep"
    then breaks too_deep
    else malformed "Expecting value: line 1 column 1 (char 0)"

abbrev success : Envelope Bool
success = record { status = succeeded; error = none; payload = some end }

parsed : parse_envelope repr loads "answer" ≡ ok success
unfolding parse_envelope get
parsed = refl

payload_of-parse_envelope_example :
    Answer success 7 "collecting" (payload_of 7 success "collecting")
payload_of-parse_envelope_example =
    payload_of-parse_envelope repr loads "answer" 7 "collecting" parsed

parse_envelope-unhashable_example :
    (e : Exception) × (parse_envelope repr loads "nested" ≡ raised e) × (is_type_error e ≡ true)
unfolding get
parse_envelope-unhashable_example =
    parse_envelope-unhashable repr loads "nested" nested_status refl refl

refused_deep : parse_envelope repr loads "deep" ≡ raised too_deep
unfolding parse_envelope
refused_deep = refl

parse_envelope-raised_example :
    (is_channel_error too_deep ≡ true)
    ⊎ (loads "deep" ≡ breaks too_deep)
    ⊎ ((d : Fields Bool) × (loads "deep" ≡ decoded (obj d))
        × (is_unhashable (get "status" d) ≡ true)
        × (is_type_error too_deep ≡ true))
parse_envelope-raised_example = parse_envelope-raised repr loads "deep" refused_deep

strip-own_frames_example :
    strip (own_frames 2 (1 ∷ 2 ∷ 3 ∷ 4 ∷ 5 ∷ [])) (1 ∷ 2 ∷ 3 ∷ 4 ∷ 5 ∷ []) ≡ 4 ∷ 5 ∷ []
strip-own_frames_example =
    strip-own_frames (1 ∷ []) 2 3 4 (5 ∷ []) (λ e. ground (arith, e), tt) refl

abbrev failure : Failure
failure = record { type_name = "KeyError"; text = some "'x'"; traceback = "" }

abbrev error_document : Doc
error_document = obj (
    field "status" (str "error") (
      field "error"
        (obj (
          field "type" (str "KeyError")
            (field "message" (str "'x'") (field "traceback" (str "") end))))
        (field "payload" null end)))

abbrev encode : Doc → String
encode j = "{}"

abbrev load_sent : String → Loaded Bool
load_sent raw = decoded error_document

-- A collector that raises `KeyError('x')`, over a channel that delivers.
read-script_example :
    read repr load_sent encode (
      script
        (λ (payload : Fields Bool). as_json (collected payload))
        encode
        some
        (failed_with failure))
    ≡ some (record {
      status = failed;
      error = some (record { type_name = "KeyError"; message = "'x'"; traceback = "" });
      payload = none;
    })
unfolding reply error_envelope
read-script_example = read-script repr load_sent encode collected (failed_with failure) refl
