-- ===== src/Snapshot/Sections.antt =====
-- src/pidprobe/_snapshot.py with src/pidprobe/collectors/_base.py: what a run in the target becomes in the
-- document of the prober.
use pidprobe.Base.{eq_iff, ◌≡◌, refl, ℕ, suc, String, true, false, some, List, [], ◌∷◌, All, arith}
use pidprobe.Base.Distinct.{has, AllDistinct}
use pidprobe.Base.Json.{str, obj, arr, float, Items, nil, cons, Fields, end, field, get}
use pidprobe.Base.Objects.{insert, update, or_else, get-update}
use pidprobe.Errors.{ok}
use pidprobe.Inject.{collected}
use pidprobe.Collectors.Contract.{reserved_section_names}
use pidprobe.Collectors.Driver.{Outcome, drive}
use pidprobe.Collectors.Isolation.{
  Settles, section_of, spec_names, stored, listed, payload, drive-payload, stored-IsDict,
  get-stored_other, get-stored,
}
use pidprobe.Snapshot.{schema_version, Floats, Stamp, rounded_reports, get_or, meta, document}

module _ {F : Type 0} (floats : Floats F) where
  rounded_reports-listed :
      (duration : ℕ → F) (i : ℕ) (specs : List (String × Outcome F))
      → rounded_reports floats (listed duration i specs)
        ≡ ok (listed (λ k. floats.round (duration k)) i specs)
  unfolding rounded_reports get insert
  rounded_reports-listed duration i [] = refl
  rounded_reports-listed duration i ((name, outcome) ∷ specs) =
      rw (rounded_reports-listed duration (suc i) specs) refl

  -- The document of a run in which every section settles.
  abbrev pub snapshot_of :
      ℕ → Stamp F → (ℕ → F) → Fields F → F → List (String × Outcome F) → Fields F
  snapshot_of pid stamp duration target stop_duration specs = update (stored specs end) (
      field "schema_version" (str schema_version) (
        field "meta"
          (obj (
            meta floats pid stamp (obj target) (float (floats.round stop_duration))
              (arr (listed (λ k. floats.round (duration k)) 0 specs))))
          end))

  get_or-obj :
      (key : String) (d e : Fields F)
      → get key d ≡ some (obj e)
      → get_or floats key d (obj end) ≡ obj e
  unfolding get_or
  get_or-obj key d end h = rw (h, get_or) refl
  get_or-obj key d (field k v e) h = rw (h, get_or) refl

  get_or-arr :
      (key : String) (d : Fields F) (xs : Items F)
      → get key d ≡ some (arr xs)
      → get_or floats key d (arr nil) ≡ arr xs
  unfolding get_or
  get_or-arr key d nil h = rw (h, get_or) refl
  get_or-arr key d (cons x xs) h = rw (h, get_or) refl

  document-payload :
      (pid : ℕ) (stamp : Stamp F) (duration : ℕ → F) (target : Fields F) (stop_duration : F)
      (specs : List (String × Outcome F))
      → document floats pid stamp (payload duration target stop_duration specs)
        ≡ ok (snapshot_of pid stamp duration target stop_duration specs)
  unfolding document get
  document-payload pid stamp duration target stop_duration specs =
      let sent = payload duration target stop_duration specs in
      rw
        (
          get_or-arr "collectors" sent (listed duration 0 specs) refl,
          get_or-obj "sections" sent (stored specs end) refl,
          get_or-obj "target" sent target refl,
          rounded_reports-listed duration 0 specs,
        )
        refl

  get-doc :
      (specs : List (String × Outcome F)) (j : String) (d : Fields F)
      → get j (update (stored specs end) d) ≡ or_else (get j (stored specs end)) (get j d)
  get-doc specs j d = get-update j (stored specs end) d (stored-IsDict specs end tt)

  get-doc_reserved :
      (specs : List (String × Outcome F)) (j : String) (d : Fields F)
      → has j (spec_names specs) ≡ false
      → get j (update (stored specs end) d) ≡ get j d
  unfolding get
  get-doc_reserved specs j d h = rw (get-doc specs j d, get-stored_other j specs end h) refl

  get-doc_sections :
      (specs later : List (String × Outcome F)) (d : Fields F)
      → All (λ (name, outcome). get name (stored specs end) ≡ some (section_of outcome)) later
      → All
          (λ (name, outcome). get name (update (stored specs end) d) ≡ some (section_of outcome))
          later
  get-doc_sections specs [] d h = tt
  get-doc_sections specs ((name, outcome) ∷ later) d h =
      (rw (get-doc specs name d, h.0) refl, get-doc_sections specs later d h.1)

  free :
      (j : String) (specs : List (String × Outcome F))
      → has j reserved_section_names ≡ true
      → All (λ (name, outcome). has name reserved_section_names ≡ false) specs
      → has j (spec_names specs) ≡ false
  unfolding has
  free j [] h k = refl
  free j ((name, outcome) ∷ specs) h k = ground (arith, eq_iff name j, free j specs h k.1)

  -- What the document has under the keys that the format fixes, and under the names of the sections.
  abbrev pub IsSnapshot :
      ℕ → Stamp F → (ℕ → F) → Fields F → F → List (String × Outcome F) → Fields F → Type 0
  IsSnapshot pid stamp duration target stop_duration specs doc =
      (get "schema_version" doc ≡ some (str schema_version))
      × (get "meta" doc
          ≡ some (
              obj (
                meta floats pid stamp (obj target) (float (floats.round stop_duration))
                  (arr (listed (λ k. floats.round (duration k)) 0 specs)))))
      × All (λ (name, outcome). get name doc ≡ some (section_of outcome)) specs

  -- If the names of the sections are distinct and not reserved, and each section returns or raises an
  -- `Exception` whose text can be taken, then the run in the target gives a payload, and the payload
  -- a document: under each name the section's data, or null if it raised; under the keys of the format
  -- the version and the metadata, with a report for each section in order, its duration rounded.
  pub document-drive :
      (pid : ℕ) (stamp : Stamp F) (duration : ℕ → F) (target : Fields F) (stop_duration : F)
      (specs : List (String × Outcome F))
      → All (λ (name, outcome). Settles outcome) specs
      → AllDistinct (spec_names specs)
      → All (λ (name, outcome). has name reserved_section_names ≡ false) specs
      → (sent : Fields F) × (drive duration target stop_duration specs ≡ collected sent)
        × (doc : Fields F) × (document floats pid stamp sent ≡ ok doc)
        × IsSnapshot pid stamp duration target stop_duration specs doc
  unfolding has get
  document-drive pid stamp duration target stop_duration specs h distinct unreserved = (
    payload duration target stop_duration specs,
    drive-payload duration target stop_duration specs h,
    snapshot_of pid stamp duration target stop_duration specs,
    document-payload pid stamp duration target stop_duration specs,
    (
      get-doc_reserved specs "schema_version" _ (free "schema_version" specs refl unreserved),
      get-doc_reserved specs "meta" _ (free "meta" specs refl unreserved),
      get-doc_sections specs specs _ (get-stored specs end distinct),
    ),
  )
