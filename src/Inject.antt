-- ===== src/Inject.antt =====
-- src/pidprobe/_inject.py: what the injected script does in the target. The script is text there; here
-- it is the program that the text spells. The collector, its payload's serialisation and the write to
-- the channel are the target's and the system's, and so arguments.
pub mod Answer
pub mod Frames
pub mod Script
pub mod WriteBack
use pidprobe.Base.{String, Bool, Option, none, some}
use pidprobe.Base.Json.{Json, null, str, obj, Fields, end, field}

-- An exception in the target. `text` is `str(exc)`: none if that raises in turn.
pub record Failure : Type 0 where
  pub type_name : String
  pub text : Option String
  pub traceback : String

pub data Collected (A : Type 0) : Type 0 where
  collected : A → Collected A
  failed_with : Failure → Collected A

module _ {F : Type 0} where
  unfoldable pub ok_envelope : Json F → Json F
  ok_envelope payload =
      obj (field "status" (str "ok") (field "error" null (field "payload" payload end)))

  -- `_pidprobe_error_envelope`: none if `str(exc)` raises.
  unfoldable pub error_envelope :
      (type_name : String) (text : Option String) (traceback : String) → Option (Json F)
  error_envelope type_name none traceback = none
  error_envelope type_name (some message) traceback = some (
      obj (
        field "status" (str "error") (
          field "error"
            (obj (
              field "type" (str type_name)
                (field "message" (str message) (field "traceback" (str traceback) end))))
            (field "payload" null end))))

  -- Both ways into the `except BaseException` of the first `try` statement lead here.
  unfoldable pub reply : Collected (Json F) → Option (Json F)
  unfolding ok_envelope error_envelope
  reply (collected payload) = some (ok_envelope payload)
  reply (failed_with failure) = error_envelope failure.type_name failure.text failure.traceback

  -- The first `try` statement of `_pidprobe_main`. `serialise` is what `json.dumps` makes of the
  -- payload, or its refusal of a value that is not JSON. `none`: the script ends without an answer.
  unfoldable pub answer : {P : Type 0} → (P → Collected (Json F)) → Collected P → Option (Json F)
  unfolding reply
  answer serialise (failed_with failure) = reply (failed_with failure)
  answer serialise (collected payload) = reply (serialise payload)

  unfoldable pub deliver :
      (encode : Json F → String)
      → (write_back : String → Option String) → Option (Json F)
      → Option String
  deliver encode write_back none = none
  deliver encode write_back (some j) = write_back (encode j)

  -- The whole script: what reaches the channel. An exception of the write back, or of building the
  -- answer, ends in `except BaseException: pass`, and never reaches the target's code.
  unfoldable pub script :
      {P : Type 0}
      → (P → Collected (Json F))
      → (encode : Json F → String) → (write_back : String → Option String) → Collected P
      → Option String
  unfolding answer deliver
  script serialise encode write_back outcome = deliver encode write_back (answer serialise outcome)
