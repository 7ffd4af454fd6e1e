-- ===== src/Collectors/Contract.antt =====
-- src/pidprobe/collectors/_base.py: the class Collector, and what its names are checked for.
-- `isidentifier` and the `repr` of a text are Python's, and so arguments.
use pidprobe.Base.{◌≡◌, String, ◌<>◌, Bool, true, false, not, List, [], ◌∷◌, if◌then◌else◌, arith}
use pidprobe.Base.Distinct.{has}
use pidprobe.Errors.{Result, ok, raised, python, value_error, type_error}

pub record Collector : Type 0 where
  pub name : String
  pub source : String
  pub description : String

abbrev pub names : List Collector → List String
names [] = []
names (c ∷ cs) = c.name ∷ names cs

-- `raise ValueError(message)`
abbrev pub invalid {ℓ} : {A : Type ℓ} → String → Result A
invalid message = raised (python value_error "ValueError" message)

-- `raise TypeError(message)`
abbrev pub mistyped {ℓ} : {A : Type ℓ} → String → Result A
mistyped message = raised (python type_error "TypeError" message)

abbrev pub reserved_section_names : List String
reserved_section_names = "meta" ∷ "schema_version" ∷ []

abbrev pub section_function_prefix : String
section_function_prefix = "_pidprobe_section_"

-- What the program asks of texts that Python answers.
pub record Texts : Type 0 where
  pub is_identifier : String → Bool
  pub repr : String → String
  pub dedent : String → String
  -- `textwrap.indent(text, prefix)`
  pub indent : (text prefix : String) → String

module _ (t : Texts) where
  -- `Collector(...)`, whose `__post_init__` may refuse the name.
  unfoldable pub new_collector : (name source description : String) → Result Collector
  new_collector name source description =
      if not (t.is_identifier name)
      then invalid ("collector name must be an identifier, got " <> t.repr name)
      else if has name reserved_section_names
      then invalid ("collector name " <> (t.repr name <> " is reserved by the snapshot format"))
      else ok (record { name = name; source = source; description = description })

  -- What every collector's name is.
  abbrev pub IsSectionName : String → Type 0
  IsSectionName name = (t.is_identifier name ≡ true) × (has name reserved_section_names ≡ false)

  pub new_collector-IsSectionName :
      (name source description : String) (c : Collector)
      → new_collector name source description ≡ ok c
      → (c ≡ record { name = name; source = source; description = description })
        × IsSectionName name
  unfolding new_collector
  new_collector-IsSectionName name source description c h = ground arith
