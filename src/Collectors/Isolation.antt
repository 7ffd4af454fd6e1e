-- ===== src/Collectors/Isolation.antt =====
-- src/pidprobe/collectors/_base.py: a section that raises costs itself only.
use pidprobe.Base.{◌≡◌, refl, ℕ, suc, String, false, some, List, [], ◌∷◌, All, eq_refl, arith}
use pidprobe.Base.Distinct.{has, AllDistinct}
use pidprobe.Base.Json.{Json, null, str, obj, arr, float, Items, nil, cons, Fields, end, field, get}
use pidprobe.Base.Objects.{insert, IsDict, get-insert, insert-IsDict}
use pidprobe.Inject.{collected, failed_with}
use pidprobe.Collectors.Driver.{Outcome, returned, failed, escaped, run_sections, drive}

module _ {F : Type 0} where
  -- The section came to a value, or raised an `Exception` whose text can be taken.
  abbrev pub Settles : Outcome F → Type 0
  Settles (returned value) = Unit
  Settles (failed type_name traceback (collected message)) = Unit
  Settles (failed type_name traceback (failed_with failure)) = ⊥
  Settles (escaped failure) = ⊥

  -- The value of a section: its data, or null if it raised.
  abbrev pub section_of : Outcome F → Json F
  section_of (returned value) = value
  section_of (failed type_name traceback text) = null
  section_of (escaped failure) = null

  abbrev error_of : Outcome F → Json F
  error_of (failed type_name traceback (collected message)) = obj (
      field "type" (str type_name)
        (field "message" (str message) (field "traceback" (str traceback) end)))
  error_of _ = null

  abbrev status_of : Outcome F → String
  status_of (returned value) = "ok"
  status_of _ = "error"

  abbrev pub spec_names : List (String × Outcome F) → List String
  spec_names [] = []
  spec_names ((name, outcome) ∷ specs) = name ∷ spec_names specs

  -- The sections, set one after another.
  abbrev pub stored : List (String × Outcome F) → Fields F → Fields F
  stored [] d = d
  stored ((name, outcome) ∷ specs) d = stored specs (insert name (section_of outcome) d)

  -- The reports: what the section came to, and the time that it took.
  abbrev pub listed : (ℕ → F) → ℕ → List (String × Outcome F) → Items F
  listed duration i [] = nil
  listed duration i ((name, outcome) ∷ specs) =
      cons
        (obj (
          field "name" (str name) (
            field "status" (str (status_of outcome))
              (field "error" (error_of outcome) (field "duration_ms" (float (duration i)) end)))))
        (listed duration (suc i) specs)

  run_sections-stored :
      (duration : ℕ → F) (i : ℕ) (specs : List (String × Outcome F)) (d : Fields F)
      → All (λ (name, outcome). Settles outcome) specs
      → run_sections duration i specs d ≡ collected (stored specs d, listed duration i specs)
  unfolding run_sections
  run_sections-stored duration i [] d h = refl
  run_sections-stored duration i ((name, returned value) ∷ specs) d h =
      rw (run_sections-stored duration (suc i) specs (insert name value d) h.1) refl
  run_sections-stored duration i ((name, failed type_name traceback (collected message)) ∷ specs) d
        h =
      rw (run_sections-stored duration (suc i) specs (insert name null d) h.1) refl
  run_sections-stored duration i ((name, failed type_name traceback (failed_with failure)) ∷ specs)
        d h =
      absurd h.0
  run_sections-stored duration i ((name, escaped failure) ∷ specs) d h = absurd h.0

  -- The payload of a run in which every section settles.
  abbrev pub payload : (ℕ → F) → Fields F → F → List (String × Outcome F) → Fields F
  payload duration target stop_duration specs = field "sections" (obj (stored specs end)) (
      field "collectors" (arr (listed duration 0 specs))
        (field "target" (obj target) (field "stop_duration_ms" (float stop_duration) end)))

  pub drive-payload :
      (duration : ℕ → F) (target : Fields F) (stop_duration : F) (specs : List (String × Outcome F))
      → All (λ (name, outcome). Settles outcome) specs
      → drive duration target stop_duration specs
        ≡ collected (payload duration target stop_duration specs)
  unfolding drive
  drive-payload duration target stop_duration specs h =
      rw (run_sections-stored duration 0 specs end h) refl

  pub stored-IsDict :
      (specs : List (String × Outcome F)) (d : Fields F) → IsDict d → IsDict (stored specs d)
  stored-IsDict [] d h = h
  stored-IsDict ((name, outcome) ∷ specs) d h =
      stored-IsDict specs (insert name (section_of outcome) d)
        (insert-IsDict name (section_of outcome) d h)

  -- A name that is none of theirs is as it was.
  pub get-stored_other :
      (j : String) (specs : List (String × Outcome F)) (d : Fields F)
      → has j (spec_names specs) ≡ false
      → get j (stored specs d) ≡ get j d
  unfolding has
  get-stored_other j [] d h = refl
  get-stored_other j ((name, outcome) ∷ specs) d h = ground (
    arith,
    get-stored_other j specs (insert name (section_of outcome) d),
    get-insert name j (section_of outcome) d,
  )

  -- If the names are distinct, each section is found under its own.
  pub get-stored :
      (specs : List (String × Outcome F)) (d : Fields F)
      → AllDistinct (spec_names specs)
      → All (λ (name, outcome). get name (stored specs d) ≡ some (section_of outcome)) specs
  get-stored [] d h = tt
  get-stored ((name, outcome) ∷ specs) d h = (
    ground (
      arith,
      eq_refl name,
      get-stored_other name specs (insert name (section_of outcome) d),
      get-insert name name (section_of outcome) d,
    ),
    get-stored specs (insert name (section_of outcome) d) h.1,
  )
