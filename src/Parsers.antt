-- ===== src/Parsers.antt =====
-- src/pidprobe/_parsers.py: the parsers of numbers. What `int` and `float` make of a text are arguments,
-- `none` being a ValueError, and a refusal is the message of an ArgumentTypeError.
use pidprobe.Base.{String, ◌<>◌, Bool, not, ◌||◌, Option, none, some, if◌then◌else◌}
use pidprobe.Base.Int.{ℤ, pos, ltb_ℤ, show_ℤ}

pub data Parsed (A : Type 0) : Type 0 where
  accepted : A → Parsed A
  refused : (message : String) → Parsed A

unfoldable pub positive_int :
    (int : String → Option ℤ) → (repr : String → String) → String → Parsed ℤ
positive_int int repr value = elim (int value) [
  | none ↦ refused ("expected an integer, got " <> repr value)
  | some number ↦
      if not (ltb_ℤ (pos 0) number)
      then refused ("expected a positive integer, got " <> show_ℤ number)
      else accepted number
]

-- What the parser asks of a float.
pub record FloatTests (F : Type 0) : Type 0 where
  pub parse : String → Option F
  pub is_finite : F → Bool
  -- `number <= 0`
  pub at_most_zero : F → Bool
  pub show : F → String

unfoldable pub positive_float :
    {F : Type 0} → FloatTests F → (repr : String → String) → String → Parsed F
positive_float floats repr value = elim (floats.parse value) [
  | none ↦ refused ("expected a number, got " <> repr value)
  | some number ↦
      if not (floats.is_finite number) || floats.at_most_zero number
      then refused ("expected a positive number, got " <> floats.show number)
      else accepted number
]
