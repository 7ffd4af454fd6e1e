-- ===== src/Diff/Sections.antt =====
-- src/pidprobe/_diff.py: `diff_snapshots` and the sections of a delta.
use pidprobe.Base.{
  String, ◌<>◌, Bool, not, ◌||◌, Option, none, some, List, [], ◌∷◌, ◌=ₛ◌, if◌then◌else◌,
}
use pidprobe.Base.Int.{ℤ, eqb_ℤ}
use pidprobe.Base.Dict.{Dict, insert}
use pidprobe.Base.Json.{Json, str, arr, obj, Items, nil, cons, Fields, end, field, get}
use pidprobe.Errors.{Result, ok, raised, ◌>>=◌, python, value_error}
use pidprobe.Diff.Change.{Change, as_int, change}
use pidprobe.Diff.Types.{TypeDelta, counts_by_type, type_deltas}

-- What the deltas take from Python: `!=` and `repr` of values, whether a float is zero, and the
-- milliseconds between two timestamps: `fromisoformat` of both, the difference, rounded to 3 digits.
pub record Python (F : Type 0) : Type 1 where
  pub equal : Option (Json F) → Option (Json F) → Bool
  pub repr : Option (Json F) → String
  pub is_zero : F → Bool
  pub Stamp : Type 0
  pub fromisoformat : String → Option Stamp
  pub elapsed_ms : Stamp → Stamp → Result F

pub record ObjectsDelta : Type 0 where
  pub top_n : Option ℤ
  pub total_tracked : Option Change
  pub distinct_types : Option Change
  pub types : List TypeDelta

pub record GenerationDelta : Type 0 where
  pub generation : ℤ
  pub changes : Dict Change

pub record GcDelta : Type 0 where
  pub generations : List GenerationDelta
  pub garbage_count : Option Change
  pub freeze_count : Option Change

pub record SnapshotDelta (F : Type 0) : Type 0 where
  pub pid : Option (Json F)
  pub captured_from : Option (Json F)
  pub captured_to : Option (Json F)
  pub interval_ms : Option F
  pub objects : Option ObjectsDelta
  pub gc : Option GcDelta
  pub fds : Option (Option Change)

module _ {F : Type 0} where
  -- A section that is a dict.
  abbrev pub section : Option (Json F) → Option (Fields F)
  section (some (obj fields)) = some fields
  section _ = none

  unfoldable pub meta_of : Fields F → Fields F
  meta_of snapshot = elim (section (get "meta" snapshot)) [ none ↦ end | some fields ↦ fields ]

  -- `indexed[index] = entry`
  put : ℤ → Fields F → List (ℤ × Fields F) → List (ℤ × Fields F)
  put index entry [] = (index, entry) ∷ []
  put index entry ((i, e) ∷ rest) =
      let more = put index entry rest in if eqb_ℤ i index then (i, entry) ∷ rest else (i, e) ∷ more

  unfoldable pub find : ℤ → List (ℤ × Fields F) → Option (Fields F)
  find index [] = none
  find index ((i, e) ∷ rest) = let more = find index rest in if eqb_ℤ i index then some e else more

  unfoldable pub generations_by_index : Items F → List (ℤ × Fields F) → List (ℤ × Fields F)
  unfolding put as_int
  generations_by_index nil indexed = indexed
  generations_by_index (cons (obj entry) items) indexed =
      let after : List (ℤ × Fields F) = elim (as_int (get "generation" entry)) [
        | none ↦ indexed
        | some index ↦ put index entry indexed
      ] in
      generations_by_index items after
  generations_by_index (cons _ items) indexed = generations_by_index items indexed

  -- The inner loop: every statistic of one generation.
  unfoldable pub statistics : Fields F → Fields F → Dict Change → Dict Change
  unfolding change
  statistics previous end row = row
  statistics previous (field key value fields) row =
      let next : Dict Change = elim (change (get key previous) (some value)) [
        | none ↦ row
        | some moved ↦ insert key moved row
      ] in
      statistics previous fields (if key =ₛ "generation" || key =ₛ "threshold" then row else next)

  paired : Option ℤ → List (ℤ × Fields F) → Option (ℤ × Fields F)
  paired none indexed = none
  paired (some index) indexed = elim (find index indexed) [
    | none ↦ none
    | some previous ↦ some (index, previous)
  ]

  unfoldable pub generation_rows : List (ℤ × Fields F) → Items F → List GenerationDelta
  unfolding paired statistics as_int
  generation_rows indexed nil = []
  generation_rows indexed (cons (obj entry) items) =
      let rows = generation_rows indexed items in
      elim (paired (as_int (get "generation" entry)) indexed) [
        | none ↦ rows
        | some (index, previous) ↦
            record { generation = index; changes = statistics previous entry [] } ∷ rows
      ]
  generation_rows indexed (cons _ items) = generation_rows indexed items

  abbrev pub items_of : Option (Json F) → Items F
  items_of (some (arr items)) = items
  items_of _ = nil

  unfoldable pub generation_deltas : Option (Json F) → Option (Json F) → List GenerationDelta
  unfolding generation_rows generations_by_index
  generation_deltas before after =
      generation_rows (generations_by_index (items_of before) []) (items_of after)

  unfoldable pub gc_delta : Option (Fields F) → Option (Fields F) → Option GcDelta
  unfolding generation_deltas
  gc_delta (some was) (some now) = some (record {
    generations = generation_deltas (get "generations" was) (get "generations" now);
    garbage_count = change (get "garbage_count" was) (get "garbage_count" now);
    freeze_count = change (get "freeze_count" was) (get "freeze_count" now);
  })
  gc_delta _ _ = none

  unfoldable pub fds_delta : Option (Fields F) → Option (Fields F) → Option (Option Change)
  fds_delta (some was) (some now) = some (change (get "count" was) (get "count" now))
  fds_delta _ _ = none

module _ {F : Type 0} (py : Python F) where
  unfoldable pub objects_delta :
      Option (Fields F) → Option (Fields F) → Result (Option ObjectsDelta)
  objects_delta (some was) (some now) = do
    before ← counts_by_type py.is_zero was
    after ← counts_by_type py.is_zero now
    ok (
        some (record {
          top_n = as_int (get "top_n" now);
          total_tracked = change (get "total_tracked" was) (get "total_tracked" now);
          distinct_types = change (get "distinct_types" was) (get "distinct_types" now);
          types = type_deltas before after;
        }))
  objects_delta _ _ = ok none

  stamps : Option py.Stamp → Option py.Stamp → Result (Option F)
  stamps (some started) (some ended) = do elapsed ← py.elapsed_ms started ended; ok (some elapsed)
  stamps _ _ = ok none

  unfoldable pub interval_ms : Option (Json F) → Option (Json F) → Result (Option F)
  unfolding stamps
  interval_ms (some (str captured_from)) (some (str captured_to)) =
      stamps (py.fromisoformat captured_from) (py.fromisoformat captured_to)
  interval_ms _ _ = ok none

  unfoldable pub diff_snapshots : Fields F → Fields F → Result (SnapshotDelta F)
  diff_snapshots before after =
      let was = meta_of before in
      let now = meta_of after in
      let pid = get "pid" now in
      if not (py.equal (get "pid" was) pid)
      then raised (
          python value_error "ValueError" (
            "cannot diff snapshots of different processes: "
            <> (py.repr (get "pid" was) <> (" and " <> py.repr pid))))
      else do
        interval ← interval_ms (get "captured_at" was) (get "captured_at" now)
        objects ← objects_delta (section (get "objects" before)) (section (get "objects" after))
        ok (record {
          pid = pid;
          captured_from = get "captured_at" was;
          captured_to = get "captured_at" now;
          interval_ms = interval;
          objects = objects;
          gc = gc_delta (section (get "gc" before)) (section (get "gc" after));
          fds = fds_delta (section (get "fds" before)) (section (get "fds" after));
        })
