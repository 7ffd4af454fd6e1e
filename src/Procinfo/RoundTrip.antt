-- ===== src/Procinfo/RoundTrip.antt =====
-- src/pidprobe/_procinfo.py: the environment block of procfs is read back.
use mathlib.Core.List.{append-nil, append_assoc}
use pidprobe.Base.{
  ℕ, ◌≡◌, ◌≢◌, refl, ap, ◌∙◌, String, ◌<>◌, some, List, [], ◌∷◌, ◌++◌, All, All-append, arith,
}
use pidprobe.Base.Decimal.{show}
use pidprobe.Base.Dict.{Dict, insert}
use pidprobe.Procinfo.{System}
use pidprobe.Procinfo.Environ.{split_zero, partition, entries, process_environ}

-- A variable of a process, in bytes: the kernel allows no zero byte, and no `=` in a name.
abbrev pub IsVariable : List ℕ × List ℕ → Type 0
IsVariable (name, value) = All (λ b. b ≢ 0) name × All (λ b. b ≢ b'=') name × All (λ b. b ≢ 0) value

-- /proc/<pid>/environ: each variable as `name=value`, ended by a zero byte.
abbrev pub environ_block : List (List ℕ × List ℕ) → List ℕ
environ_block [] = []
environ_block ((name, value) ∷ vars) = (name ++ (b'=' ∷ value)) ++ (0 ∷ environ_block vars)

-- The variables in a dict, a later one in place of an earlier one of the same name.
abbrev pub loaded : System → List (List ℕ × List ℕ) → Dict String → Dict String
loaded s [] env = env
loaded s ((name, value) ∷ vars) env = loaded s vars (insert (s.decode name) (s.decode value) env)

split_zero-append :
    (piece chunk rest : List ℕ)
    → All (λ b. b ≢ 0) chunk
    → split_zero piece (chunk ++ (0 ∷ rest)) ≡ (piece ++ chunk) ∷ split_zero [] rest
unfolding split_zero
split_zero-append piece [] rest h = rw (append-nil piece) refl
split_zero-append piece (b ∷ chunk) rest h = ground (
  arith,
  h,
  split_zero-append (piece ++ (b ∷ [])) chunk rest h.1,
  append_assoc piece (b ∷ []) chunk,
)

partition-append :
    (start name value : List ℕ)
    → All (λ b. b ≢ b'=') name
    → partition start (name ++ (b'=' ∷ value)) ≡ (start ++ name, value)
unfolding partition
partition-append start [] value h = rw (append-nil start) refl
partition-append start (b ∷ name) value h = ground (
  arith,
  h,
  partition-append (start ++ (b ∷ [])) name value h.1,
  append_assoc start (b ∷ []) name,
)

module _ (s : System) where
  entries-variable :
      (name value : List ℕ) (chunks : List (List ℕ)) (env : Dict String)
      → All (λ b. b ≢ b'=') name
      → entries s ((name ++ (b'=' ∷ value)) ∷ chunks) env
        ≡ entries s chunks (insert (s.decode name) (s.decode value) env)
  unfolding entries
  entries-variable [] value chunks env h = refl
  entries-variable (b ∷ name) value chunks env h = rw (partition-append [] (b ∷ name) value h) refl

  entries-environ_block :
      (vars : List (List ℕ × List ℕ)) (env : Dict String)
      → All IsVariable vars
      → entries s (split_zero [] (environ_block vars)) env ≡ loaded s vars env
  unfolding split_zero entries
  entries-environ_block [] env h = refl
  entries-environ_block ((name, value) ∷ vars) env (v, h) =
      rw
        (split_zero-append [] (name ++ (b'=' ∷ value)) (environ_block vars)
          (All-append (λ b. b ≢ 0) name (b'=' ∷ value) v.0 (λ e. omega (arith, e), v.2)))
        (entries-variable name value (split_zero [] (environ_block vars)) env v.1
          ∙ entries-environ_block vars (insert (s.decode name) (s.decode value) env) h)

  -- An environment block that a kernel can have written is read back: each variable, by its name and
  -- value as the system decodes them, a later one replacing an earlier one of the same name.
  pub process_environ-environ_block :
      (pid : ℕ) (vars : List (List ℕ × List ℕ))
      → All IsVariable vars
      → s.read_bytes ("/proc/" <> (show pid <> "/environ")) ≡ some (environ_block vars)
      → process_environ s pid ≡ some (loaded s vars [])
  unfolding process_environ
  process_environ-environ_block pid vars h r =
      rw (r, process_environ) (ap some (entries-environ_block vars [] h))
