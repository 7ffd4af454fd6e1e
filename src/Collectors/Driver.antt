-- ===== src/Collectors/Driver.antt =====
-- src/pidprobe/collectors/_base.py: what the driver of a run does in the target. What the functions of
-- the sections come to, the clock and the interpreter are arguments; a duration is a float.
use pidprobe.Base.{ℕ, suc, String, List, [], ◌∷◌}
use pidprobe.Base.Json.{Json, null, str, obj, arr, float, Items, nil, cons, Fields, end, field}
use pidprobe.Base.Objects.{insert}
use pidprobe.Inject.{Failure, Collected, collected, failed_with}

-- What a section's function comes to: its `data`, an `Exception` with what its `str` comes to, or an
-- exception that is no `Exception`.
pub data Outcome (F : Type 0) : Type 0 where
  returned : Json F → Outcome F
  failed : (type_name traceback : String) → (text : Collected String) → Outcome F
  escaped : Failure → Outcome F

-- What the driver keeps of a section: its value and its report, up to the duration.
pub record Done (F : Type 0) : Type 0 where
  pub section : Json F
  pub status : String
  pub error : Json F

abbrev pub ◌then_collect◌ : {A B : Type 0} → Collected A → (A → Collected B) → Collected B
collected a then_collect next = next a
failed_with failure then_collect next = failed_with failure

infixl 5 ◌then_collect◌
module _ {F : Type 0} where
  -- The `try` statement of a round. The text of a failure may raise in turn, and nothing handles that.
  unfoldable pub settle : Outcome F → Collected (Done F)
  settle (returned value) = collected (record { section = value; status = "ok"; error = null })
  settle (failed type_name traceback text) = text then_collect (λ message. collected (record {
    section = null;
    status = "error";
    error = obj (
        field "type" (str type_name)
          (field "message" (str message) (field "traceback" (str traceback) end)));
  }))
  settle (escaped failure) = failed_with failure

  unfoldable pub report : String → Done F → F → Json F
  report name done duration = obj (
      field "name" (str name) (
        field "status" (str done.status)
          (field "error" done.error (field "duration_ms" (float duration) end))))

  -- The `for` statement from round `i` on. `duration i` is the time that round `i` took.
  unfoldable pub run_sections :
      (duration : ℕ → F) → ℕ → List (String × Outcome F) → Fields F → Collected (Fields F × Items F)
  unfolding settle report
  run_sections duration i [] sections = collected (sections, nil)
  run_sections duration i ((name, outcome) ∷ specs) sections = settle outcome then_collect (λ done.
      run_sections duration (suc i) specs (insert name done.section sections)
      then_collect (λ (all, reports).
          collected (all, cons (report name done (duration i)) reports)))

  -- The driver's `payload`, for the description of the interpreter and the time that it all took.
  unfoldable pub drive :
      (duration : ℕ → F) (target : Fields F) (stop_duration : F)
      → List (String × Outcome F)
      → Collected (Fields F)
  unfolding run_sections
  drive duration target stop_duration specs =
      run_sections duration 0 specs end then_collect (λ (sections, reports). collected (
        field "sections" (obj sections) (
          field "collectors" (arr reports)
            (field "target" (obj target) (field "stop_duration_ms" (float stop_duration) end)))))
