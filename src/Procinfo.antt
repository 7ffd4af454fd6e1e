-- ===== src/Procinfo.antt =====
-- src/pidprobe/_procinfo.py: read-only facts about another process. The file system, `ps`, the
-- target's interpreter and Python's own text functions are the fields of a `System`.
pub mod Environ
pub mod Interpreter
pub mod Execution
pub mod RoundTrip
use pidprobe.Base.{
  ℕ, String, ◌<>◌, Bool, true, false, ◌||◌, Option, none, some, List, [], ◌∷◌, ◌=ₛ◌, if◌then◌else◌,
}
use pidprobe.Base.Decimal.{show}
use pidprobe.Base.Int.{ℤ, pos}
use pidprobe.Errors.{Exception, Result, ok, raised, ◌>>=◌}

-- What `subprocess.run` does with a program: an `OSError`, a timeout, or its end, with whether the exit
-- status is 0, and stdout. If stdout cannot be decoded, a UnicodeDecodeError is raised.
pub data RunOutcome : Type 0 where
  not_run : RunOutcome
  completed : (succeeded : Bool) (stdout : String) → RunOutcome
  undecodable : Exception → RunOutcome

-- `none` is an `OSError`, and a `ValueError` of `int`.
pub record System : Type 0 where
  pub platform : String
  pub read_text : String → Option String
  pub read_bytes : String → Option (List ℕ)
  pub stat_uid : String → Option ℕ
  pub readlink : String → Option String
  -- `subprocess.run`
  pub execute : (argv : List String) → (timeout : ℕ) → RunOutcome
  -- `bytes.decode(errors="replace")`, `int`, `str.strip`, `str.split`, `Path(p).name.lower()`
  pub decode : List ℕ → String
  pub parse_int : String → Option ℤ
  pub strip : String → String
  pub split : String → List String
  pub name_lower : String → String

module _ (s : System) where
  unfoldable pub is_linux : Bool
  is_linux = s.platform =ₛ "linux"

  unfoldable pub is_macos : Bool
  is_macos = s.platform =ₛ "darwin"

  unfoldable pub ptrace_scope : Option ℤ
  ptrace_scope = elim (s.read_text "/proc/sys/kernel/yama/ptrace_scope") [
    | none ↦ none
    | some raw ↦ s.parse_int (s.strip raw)
  ]

  -- `_run`: an empty output is no answer.
  unfoldable pub run : List String → ℕ → Result (Option String)
  run argv timeout = elim (s.execute argv timeout) [
    | not_run ↦ ok none
    | completed succeeded stdout ↦
        let text = s.strip stdout in
        ok (if succeeded then (if text =ₛ "" then none else some text) else none)
    | undecodable e ↦ raised e
  ]

  unfoldable pub ps_field : ℕ → String → Result (Option String)
  unfolding run
  ps_field pid name = run ("/bin/ps" ∷ "-o" ∷ (name <> "=") ∷ "-p" ∷ show pid ∷ []) 2

  unfoldable pub process_uid : ℕ → Result (Option ℤ)
  unfolding is_linux is_macos ps_field
  process_uid pid =
      if is_linux
      then ok (elim (s.stat_uid ("/proc/" <> show pid)) [ none ↦ none | some uid ↦ some (pos uid) ])
      else if is_macos
      then ps_field pid "uid"
        >>= (λ found. ok (elim found [ none ↦ none | some text ↦ s.parse_int text ]))
      else ok none

  -- `pid` is a number in decimal, or "self".
  unfoldable pub pid_namespace : String → Option String
  pid_namespace pid = s.readlink ("/proc/" <> (pid <> "/ns/pid"))

  unfoldable pub process_executable : ℕ → Result (Option String)
  unfolding is_linux is_macos ps_field
  process_executable pid =
      if is_linux
      then ok (s.readlink ("/proc/" <> (show pid <> "/exe")))
      else if is_macos
      then ps_field pid "comm"
      else ok none
