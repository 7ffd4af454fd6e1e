-- ===== src/Procinfo/Environ.antt =====
-- src/pidprobe/_procinfo.py: `process_environ`.
use pidprobe.Base.{ℕ, String, ◌<>◌, Option, none, some, List, [], ◌∷◌, ◌++◌, ◌==◌, if◌then◌else◌}
use pidprobe.Base.Decimal.{show}
use pidprobe.Base.Dict.{Dict, insert}
use pidprobe.Procinfo.{System}

-- `raw.split(b"\0")`: the pieces between the zero bytes, at least one.
unfoldable pub split_zero : List ℕ → List ℕ → List (List ℕ)
split_zero piece [] = piece ∷ []
split_zero piece (b ∷ bytes) =
    let next = split_zero [] bytes in
    let more = split_zero (piece ++ (b ∷ [])) bytes in if b == 0 then piece ∷ next else more

-- `chunk.partition(b"=")`, without the separator
unfoldable pub partition : List ℕ → List ℕ → List ℕ × List ℕ
partition name [] = (name, [])
partition name (b ∷ bytes) =
    let more = partition (name ++ (b ∷ [])) bytes in if b == b'=' then (name, bytes) else more

module _ (s : System) where
  unfoldable pub entries : List (List ℕ) → Dict String → Dict String
  unfolding partition insert
  entries [] env = env
  entries ([] ∷ chunks) env = entries chunks env
  entries ((b ∷ bytes) ∷ chunks) env =
      let (name, value) = partition [] (b ∷ bytes) in
      entries chunks (insert (s.decode name) (s.decode value) env)

  unfoldable pub process_environ : ℕ → Option (Dict String)
  unfolding split_zero entries
  process_environ pid = elim (s.read_bytes ("/proc/" <> (show pid <> "/environ"))) [
    | none ↦ none
    | some raw ↦ some (entries (split_zero [] raw) [])
  ]
