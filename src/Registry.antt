-- ===== src/Registry.antt =====
-- src/pidprobe/registry.py: the collectors that a snapshot runs when it is given none. What packages
-- publish, what their objects answer and whether a source compiles are arguments.
pub mod Accepted
pub mod Available
pub mod Names
pub mod Runnable
pub mod Valid
use pidprobe.Base.{
  ◌≡◌, refl, String, ◌<>◌, Bool, true, false, Option, none, some, List, [], ◌∷◌, ◌++◌,
  if◌then◌else◌,
}
use pidprobe.Base.Distinct.{has}
use pidprobe.Base.Sort.{sort}
use pidprobe.Errors.{
  Kind, other_base, keyboard_interrupt, Exception, probe, python, Result, ok, raised, ◌>>=◌,
}
use pidprobe.Collectors.Contract.{Collector, names, Texts, mistyped, new_collector}
use pidprobe.Collectors.Compose.{compose_collector_source}

-- An object that should be a collector: the class of it, and `getattr(object, attribute, None)`, none if
-- that is no text.
pub record Candidate : Type 0 where
  pub type_name : String
  pub attribute : String → Result (Option String)

-- What an entry point resolves to: an object, or what calling it comes to.
pub data Published : Type 0 where
  object : Candidate → Published
  callable : Result Candidate → Published

-- `EntryPoint`, with what its `load()` comes to.
pub record EntryPoint : Type 0 where
  pub name : String
  pub value : String
  pub load : Result Published

-- What discovery comes to, and the messages that it logs. What was logged before an exception that
-- leaves discovery is not kept.
abbrev pub Logged : Type 0 → Type 0
Logged A = A × List String

-- `except Exception`
abbrev pub is_exception : Exception → Bool
is_exception (probe e) = true
is_exception (python other_base type_name message) = false
is_exception (python keyboard_interrupt type_name message) = false
is_exception (python _ type_name message) = true

-- `_accepted(collectors, taken)`, run to its end, for the message of a name that is taken.
unfoldable pub accepted :
    (repr : String → String) → List Collector → (taken : List String) → Logged (List Collector)
accepted repr [] taken = ([], [])
accepted repr (c ∷ cs) taken =
    let skipping = accepted repr cs taken in
    let taking = accepted repr cs (c.name ∷ taken) in
    if has c.name taken
    then (
      skipping.0,
      ("skipping collector plugin " <> (repr c.name <> ": that section name is already taken"))
          ∷ skipping.1,
    )
    else (c ∷ taking.0, taking.1)

-- `point.name <= other.name`
unfoldable pub goes_before : EntryPoint → EntryPoint → Bool
goes_before point other = Names.at_most point.name other.name

module _ (t : Texts) (compiles : String → Result (Unit {0})) where
  string_attribute : Candidate → String → Result String
  string_attribute candidate attribute = candidate.attribute attribute >>= (λ value. elim value [
    | some text ↦ ok text
    | none ↦ mistyped (
        "a collector must carry a string "
        <> (t.repr attribute <> (", which " <> (candidate.type_name <> " does not"))))
  ])

  resolve : Published → Result Candidate
  resolve (object candidate) = ok candidate
  resolve (callable called) = called

  unfoldable pub as_collector : Published → Result Collector
  unfolding resolve string_attribute
  as_collector published = do
    resolved ← resolve published
    name ← string_attribute resolved "name"
    source ← string_attribute resolved "source"
    description ← string_attribute resolved "description"
    collector ← new_collector t name source description
    composed ← compose_collector_source t (collector ∷ [])
    compiled ← compiles composed
    ok collector

  -- `_load`, for what `_as_collector` comes to.
  loaded : EntryPoint → Result Collector → Result (Logged (Option Collector))
  loaded point (ok collector) = ok (some collector, [])
  loaded point (raised e) =
      if is_exception e
      then ok (
        none,
        ("skipping collector plugin "
              <> (t.repr point.name <> (" (" <> (point.value <> "): it could not be loaded"))))
            ∷ [],
      )
      else raised e

  unfoldable pub load : EntryPoint → Result (Logged (Option Collector))
  unfolding loaded
  load point = loaded point (point.load >>= as_collector)

  keep : Option Collector → List Collector → List Collector
  keep none cs = cs
  keep (some c) cs = c ∷ cs

  unfoldable pub load_all : List EntryPoint → Result (Logged (List Collector))
  unfolding keep
  load_all [] = ok ([], [])
  load_all (point ∷ points) = do
    first ← load point
    rest ← load_all points
    ok (keep first.0 rest.0, first.1 ++ rest.1)

  unfoldable pub discover_collectors : List EntryPoint → Result (Logged (List Collector))
  discover_collectors points = load_all (sort goes_before points) >>= (λ candidates.
      let taken = accepted t.repr candidates.0 [] in ok (taken.0, candidates.1 ++ taken.1))

  unfoldable pub available_collectors :
      (builtin : List Collector) → List EntryPoint → Result (Logged (List Collector))
  available_collectors builtin points = discover_collectors points >>= (λ discovered.
      let plugins = accepted t.repr discovered.0 (names builtin) in
      ok (builtin ++ plugins.0, discovered.1 ++ plugins.1))
