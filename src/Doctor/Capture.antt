-- ===== src/Doctor/Capture.antt =====
-- src/pidprobe/_doctor.py: `_captured_registry_warnings` and `_RecordingHandler`, over the part of Python's
-- `logging` that they touch: a logger has a level, 0 for that of its ancestors, and `disabled` is the
-- level that `logging.disable` has switched off.
use pidprobe.Base.{
  ◌≡◌, refl, ap, ◌∙◌, ℕ, ◌≤◌, ◌<◌, String, Bool, true, false, ◌&&◌, ◌||◌, List, [], ◌∷◌, ◌++◌, All,
  ltb, leb, ◌==◌, if◌then◌else◌, arith,
}

abbrev pub warning : ℕ
warning = 30

-- The `pidprobe.registry` logger: its handlers are known by numbers.
pub record Logger : Type 0 where
  pub level : ℕ
  pub propagate : Bool
  pub handlers : List ℕ

-- A message with its level.
abbrev pub Record : Type 0
Record = ℕ × String

unfoldable pub is_among : ℕ → List ℕ → Bool
is_among h [] = false
is_among h (g ∷ handlers) = g == h || is_among h handlers

-- `addHandler`
add : ℕ → List ℕ → List ℕ
unfolding is_among
add h handlers = if is_among h handlers then handlers else handlers ++ (h ∷ [])

-- `removeHandler`
remove : ℕ → List ℕ → List ℕ
remove h [] = []
remove h (g ∷ handlers) = let rest = remove h handlers in if g == h then handlers else g ∷ rest

-- The messages of these records.
abbrev pub texts : List Record → List String
texts [] = []
texts ((level, message) ∷ records) = message ∷ texts records

module _ (ancestors_level disabled : ℕ) where
  effective_level : Logger → ℕ
  effective_level logger = if logger.level == 0 then ancestors_level else logger.level

  -- Up to the `yield`.
  unfoldable pub listening : ℕ → Logger → Logger
  unfolding add effective_level
  listening handler logger = record {
    level = if ltb warning (effective_level logger) then warning else logger.level;
    propagate = false;
    handlers = add handler logger.handlers;
  }

  -- What the handler records of what is logged: its own level is that of a warning.
  unfoldable pub recorded : ℕ → Logger → List Record → List String
  unfolding effective_level
  recorded handler logger [] = []
  recorded handler logger ((level, message) ∷ records) =
      let rest = recorded handler logger records in
      if ltb disabled level
        && (leb (effective_level logger) level
            && (is_among handler logger.handlers && leb warning level))
      then message ∷ rest
      else rest

  -- The `finally` block, for the logger as it was.
  pub restored : ℕ → Logger → Logger → Logger
  unfolding remove
  restored handler before logger = record {
    level = before.level;
    propagate = before.propagate;
    handlers = remove handler logger.handlers;
  }

  -- The messages that a discovery leaves, and the logger after it.
  unfoldable pub captured : ℕ → Logger → List Record → List String × Logger
  captured handler logger records =
      let listener = listening handler logger in
      (recorded handler listener records, restored handler logger listener)

  remove-append :
      (h : ℕ) (handlers : List ℕ)
      → is_among h handlers ≡ false
      → remove h (handlers ++ (h ∷ [])) ≡ handlers
  unfolding remove is_among
  remove-append h [] e = ground arith
  remove-append h (g ∷ handlers) e = ground (arith, remove-append h handlers)

  is_among-append : (h : ℕ) (handlers : List ℕ) → is_among h (handlers ++ (h ∷ [])) ≡ true
  unfolding is_among
  is_among-append h [] = ground arith
  is_among-append h (g ∷ handlers) = ground (arith, is_among-append h handlers)

  recorded-texts :
      (handler : ℕ) (logger : Logger) (records : List Record)
      → disabled < warning
      → effective_level logger ≤ warning
      → is_among handler logger.handlers ≡ true
      → All (λ (level, message). warning ≤ level) records
      → recorded handler logger records ≡ texts records
  unfolding recorded
  recorded-texts handler logger [] d e a h = refl
  recorded-texts handler logger ((level, message) ∷ records) d e a h =
      ground (arith, recorded-texts handler logger records d e a h.1, h.0)

  listening-effective_level :
      (handler : ℕ) (logger : Logger) → effective_level (listening handler logger) ≤ warning
  unfolding effective_level listening
  listening-effective_level handler logger = ground arith

  listening-handlers :
      (handler : ℕ) (logger : Logger)
      → is_among handler logger.handlers ≡ false
      → (listening handler logger).handlers ≡ logger.handlers ++ (handler ∷ [])
  unfolding listening add
  listening-handlers handler logger f = ground arith

  restored-listening :
      (handler : ℕ) (logger : Logger)
      → is_among handler logger.handlers ≡ false
      → restored handler logger (listening handler logger) ≡ logger
  unfolding restored
  restored-listening handler logger f =
      ap (λ handlers. record logger { handlers = handlers })
        (ap (remove handler) (listening-handlers handler logger f)
          ∙ remove-append handler logger.handlers f)

  -- If warnings are not switched off for the whole process and the handler is a new one, then all that
  -- is logged as a warning or worse is captured, in order, and the logger is left as it was found.
  pub captured-texts :
      (handler : ℕ) (logger : Logger) (records : List Record)
      → disabled < warning
      → is_among handler logger.handlers ≡ false
      → All (λ (level, message). warning ≤ level) records
      → captured handler logger records ≡ (texts records, logger)
  unfolding captured
  captured-texts handler logger records d f h =
      let heard =
        recorded-texts handler (listening handler logger) records d
          (listening-effective_level handler logger)
          (ap (is_among handler) (listening-handlers handler logger f)
            ∙ is_among-append handler logger.handlers)
          h in
      rw (heard, restored-listening handler logger f)
