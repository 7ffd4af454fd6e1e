-- ===== src/Envelope/Laws.antt =====
-- src/pidprobe/_envelope.py: what validation promises to the rest of the program.
use pidprobe.Base.{ℕ, ◌≡◌, ◌≢◌, refl, ◌⊎◌, String, Bool, true, false, Option, none, some, arith}
use pidprobe.Base.Json.{Json, null, arr, obj, Fields, get}
use pidprobe.Errors.{
  ErrorInfo, Exception, probe, channel, Result, ok, raised, ◌>>=◌, target_error, channel_error,
  python, type_error,
}
use pidprobe.Envelope.{
  Loaded, decoded, breaks, Status, succeeded, failed, Envelope, parse_envelope, parse_decoded,
  parse_fields, parse_status, parse_error_info, parse_payload, parse_rest, payload_of,
}

-- The contract of an envelope: a failure has its details.
abbrev pub IsValid : {F : Type 0} → Envelope F → Type 0
IsValid envelope = envelope.status ≡ failed → envelope.error ≢ none

-- What asking an envelope for its payload can end with.
pub data Answer {F : Type 0} (envelope : Envelope F) (pid : ℕ) (action : String)
    : Result (Fields F) → Type 0 where
  payload :
      (d : Fields F)
      → envelope.status ≡ succeeded
      → envelope.payload ≡ some d
      → Answer envelope pid action (ok d)
  failure :
      (error : ErrorInfo)
      → envelope.status ≡ failed
      → envelope.error ≡ some error
      → Answer envelope pid action (raised (probe (target_error pid error action)))
  no_payload :
      (message : String)
      → envelope.status ≡ succeeded
      → envelope.payload ≡ none
      → Answer envelope pid action (channel_error message)

answer :
    {F : Type 0} (status : Status) (error : Option ErrorInfo) (d : Option (Fields F)) (pid : ℕ)
    (action : String)
    → (status ≡ failed → error ≢ none)
    → let envelope : Envelope F = record { status = status; error = error; payload = d } in
      Answer envelope pid action (payload_of pid envelope action)
unfolding payload_of
answer succeeded error none pid action h = no_payload _ refl refl
answer succeeded error (some d) pid action h = payload d refl refl
answer failed none d pid action h = absurd (h refl refl)
answer failed (some error) d pid action h = failure error refl refl

abbrev pub is_channel_error : Exception → Bool
is_channel_error (probe error) = elim error.kind [ channel ↦ true | _ ↦ false ]
is_channel_error _ = false

abbrev pub is_type_error : Exception → Bool
is_type_error (python type_error type_name message) = true
is_type_error _ = false

-- A list or an object, which Python cannot hash.
abbrev pub is_unhashable : {F : Type 0} → Option (Json F) → Bool
is_unhashable (some (arr xs)) = true
is_unhashable (some (obj d)) = true
is_unhashable _ = false

module _ {F : Type 0} (repr : Json F → String) (loads : String → Loaded F) where
  parse_error_info-valid :
      (status : Status) (raw : Option (Json F)) {error : Option ErrorInfo}
      → parse_error_info repr status raw ≡ ok error
      → status ≡ failed
      → error ≢ none
  unfolding parse_error_info
  parse_error_info-valid failed none h e n = cc
  parse_error_info-valid failed (some null) h e n = cc
  parse_error_info-valid failed (some (obj d)) h e n = cc
  parse_error_info-valid failed (some _) h e n = cc
  parse_error_info-valid succeeded raw h e n = cc

  -- The three steps of an acceptance.
  parse_fields-ok :
      (d : Fields F) {envelope : Envelope F}
      → parse_fields repr d ≡ ok envelope
      → (parse_status repr (get "status" d) ≡ ok envelope.status)
        × (parse_error_info repr envelope.status (get "error" d) ≡ ok envelope.error)
        × (parse_payload repr (get "payload" d) ≡ ok envelope.payload)
  unfolding parse_fields
  parse_fields-ok d h = ground arith

  parse_envelope-ok :
      (raw : String) {envelope : Envelope F}
      → parse_envelope repr loads raw ≡ ok envelope
      → (d : Fields F) × (loads raw ≡ decoded (obj d)) × (parse_fields repr d ≡ ok envelope)
  unfolding parse_envelope parse_decoded
  parse_envelope-ok raw h = ground arith

  -- A failure that was accepted carries its details.
  pub parse_envelope-IsValid :
      (raw : String) {envelope : Envelope F}
      → parse_envelope repr loads raw ≡ ok envelope
      → IsValid envelope
  parse_envelope-IsValid raw {envelope} h =
      let (d, found, parsed) = parse_envelope-ok raw h in
      parse_error_info-valid envelope.status (get "error" d) (parse_fields-ok d parsed).1

  -- The answer of an accepted envelope: the payload, the target's own failure, or an error of the
  -- channel if a success came without a payload. The branch for a failure without details is dead.
  pub payload_of-parse_envelope :
      (raw : String) (pid : ℕ) (action : String) {envelope : Envelope F}
      → parse_envelope repr loads raw ≡ ok envelope
      → Answer envelope pid action (payload_of pid envelope action)
  payload_of-parse_envelope raw pid action {envelope} h =
      answer envelope.status envelope.error envelope.payload pid action
        (parse_envelope-IsValid raw h)

  parse_status-raised :
      (status : Option (Json F)) {e : Exception}
      → parse_status repr status ≡ raised e
      → (is_channel_error e ≡ true) ⊎ ((is_unhashable status ≡ true) × (is_type_error e ≡ true))
  unfolding parse_status
  parse_status-raised status h = ground arith

  parse_error_info-raised :
      (status : Status) (raw : Option (Json F)) {e : Exception}
      → parse_error_info repr status raw ≡ raised e
      → is_channel_error e ≡ true
  unfolding parse_error_info
  parse_error_info-raised status raw h = ground arith

  parse_payload-raised :
      (raw : Option (Json F)) {e : Exception}
      → parse_payload repr raw ≡ raised e
      → is_channel_error e ≡ true
  unfolding parse_payload
  parse_payload-raised raw h = ground arith

  parse_fields-raised :
      (d : Fields F) {e : Exception}
      → parse_fields repr d ≡ raised e
      → (is_channel_error e ≡ true)
        ⊎ ((is_unhashable (get "status" d) ≡ true) × (is_type_error e ≡ true))
  unfolding parse_fields
  parse_fields-raised d {e} h = ground arith

  -- A message is refused with a `ChannelError`, except that what `json.loads` raises beside a
  -- JSONDecodeError is passed on, and that a status which is a list or an object makes the lookup raise a
  -- `TypeError`.
  pub parse_envelope-raised :
      (raw : String) {e : Exception}
      → parse_envelope repr loads raw ≡ raised e
      → (is_channel_error e ≡ true)
        ⊎ (loads raw ≡ breaks e)
        ⊎ ((d : Fields F) × (loads raw ≡ decoded (obj d))
            × (is_unhashable (get "status" d) ≡ true)
            × (is_type_error e ≡ true))
  unfolding parse_envelope parse_decoded
  parse_envelope-raised raw h = ground arith

  -- A status that is a list or an object is refused with a `TypeError`, whatever else the message has.
  pub parse_envelope-unhashable :
      (raw : String) (d : Fields F)
      → loads raw ≡ decoded (obj d)
      → is_unhashable (get "status" d) ≡ true
      → (e : Exception) × (parse_envelope repr loads raw ≡ raised e) × (is_type_error e ≡ true)
  unfolding parse_envelope
  parse_envelope-unhashable raw d found h = rw (found, parse_envelope) (go (get "status" d) h)
    where
      go :
          (status : Option (Json F))
          → is_unhashable status ≡ true
          → (e : Exception) × ((parse_status repr status >>= λ s. parse_rest repr s d) ≡ raised e)
            × (is_type_error e ≡ true)
      go none k = cc
      go (some (arr xs)) k = (_, refl, refl)
      go (some (obj m)) k = (_, refl, refl)
      go (some _) k = cc
