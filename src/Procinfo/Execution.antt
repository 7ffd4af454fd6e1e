-- ===== src/Procinfo/Execution.antt =====
-- src/pidprobe/_procinfo.py: which programs are run to learn about a target.
use pidprobe.Base.{
  ℕ, ◌≡◌, ◌⊎◌, refl, inl, inr, String, true, Bool-cases, Option, none, some, List, ◌∷◌,
}
use pidprobe.Procinfo.{
  RunOutcome, System, is_linux, is_macos, ps_field, process_uid, process_executable,
}
use pidprobe.Procinfo.Interpreter.{
  looks_like_interpreter, query_interpreter, interpreter_at, interpreter_of, target_interpreter,
}

-- The same system, except for what running a program does.
abbrev pub with_execute : System → (List String → ℕ → RunOutcome) → System
with_execute s execute = record {
  platform = s.platform;
  read_text = s.read_text;
  read_bytes = s.read_bytes;
  stat_uid = s.stat_uid;
  readlink = s.readlink;
  execute = execute;
  decode = s.decode;
  parse_int = s.parse_int;
  strip = s.strip;
  split = s.split;
  name_lower = s.name_lower;
}

-- A second way to run programs that agrees on `ps` and on interpreters.
abbrev pub AgreesOnTrusted : System → (List String → ℕ → RunOutcome) → Type 0
AgreesOnTrusted s execute =
    (program : String) (args : List String) (timeout : ℕ)
    → (program ≡ "/bin/ps") ⊎ (looks_like_interpreter s program ≡ true)
    → execute (program ∷ args) timeout ≡ s.execute (program ∷ args) timeout

module _ (s : System) (execute : List String → ℕ → RunOutcome)
    (agrees : AgreesOnTrusted s execute) where
  ps_field-agrees :
      (pid : ℕ) (name : String) → ps_field (with_execute s execute) pid name ≡ ps_field s pid name
  unfolding ps_field
  ps_field-agrees pid name = rw (agrees "/bin/ps" _ 2 (inl refl)) refl

  process_executable-agrees :
      (pid : ℕ) → process_executable (with_execute s execute) pid ≡ process_executable s pid
  unfolding process_executable
  process_executable-agrees pid = rw (ps_field-agrees pid "comm") refl

  -- The owner of a process is learnt by running nothing but `ps`.
  pub process_uid-agrees : (pid : ℕ) → process_uid (with_execute s execute) pid ≡ process_uid s pid
  unfolding process_uid
  process_uid-agrees pid = rw (ps_field-agrees pid "uid") refl

  query_interpreter-agrees :
      (executable : String)
      → looks_like_interpreter s executable ≡ true
      → query_interpreter (with_execute s execute) executable ≡ query_interpreter s executable
  unfolding query_interpreter
  query_interpreter-agrees executable h = rw (agrees executable _ 10 (inr h)) refl

  interpreter_at-agrees :
      (executable : String)
      → interpreter_at (with_execute s execute) executable ≡ interpreter_at s executable
  unfolding interpreter_at looks_like_interpreter
  interpreter_at-agrees executable = elim (Bool-cases (looks_like_interpreter s executable)) [
    | inl h ↦ rw (query_interpreter-agrees executable h) refl
    | inr h ↦ rw h refl
  ]

  interpreter_of-agrees :
      (found : Option String)
      → interpreter_of (with_execute s execute) found ≡ interpreter_of s found
  unfolding interpreter_of is_linux is_macos
  interpreter_of-agrees none = refl
  interpreter_of-agrees (some executable) = interpreter_at-agrees executable

  -- What pidprobe learns of a target's interpreter is learnt by running only `ps` and programs that are
  -- named like a Python interpreter: if another way of running programs agrees on those, the answer
  -- is the same.
  pub target_interpreter-agrees :
      (pid : ℕ) → target_interpreter (with_execute s execute) pid ≡ target_interpreter s pid
  unfolding target_interpreter
  target_interpreter-agrees pid =
      let same : interpreter_of (with_execute s execute) ≡ interpreter_of s =
        λ i found. interpreter_of-agrees found i in
      rw (process_executable-agrees pid, same) refl
