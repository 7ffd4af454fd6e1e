-- ===== src/Channel/Execute.antt =====
-- src/pidprobe/_channel.py: `open_channel`, `_remote_exec` and `execute_in_target`, as a run: the list of
-- the effects in their order, and what comes of them.
use pidprobe.Base.{ℕ, String, Bool, true, false, List, [], ◌∷◌, ◌++◌, if◌then◌else◌}
use pidprobe.Envelope.{Envelope}
use pidprobe.Errors.{
  Exception, probe, python, os_error, runtime_error, value_error, Result, ok, raised, from_cause,
}

pub data ChannelKind : Type 0 where
  unix_socket tempfile : ChannelKind

pub data Effect : Type 0 where
  channel_opened : ChannelKind → Effect
  directory_created : Effect
  script_written : ChannelKind → Effect
  injected : Effect
  awaited : ChannelKind → Effect
  directory_removed : Effect
  channel_closed : Effect

abbrev pub Run : Type 0 → Type 0
Run A = List Effect × Result A

infixl 5 ◌then_run◌
-- One statement after another.
abbrev pub ◌then_run◌ : {A B : Type 0} → Run A → (A → Run B) → Run B
(effects, raised e) then_run next = (effects, raised e)
(effects, ok a) then_run next = (effects ++ (next a).0, (next a).1)

-- `try: ... finally: effect`
abbrev pub finally : {A : Type 0} → Run A → Effect → Run A
finally (effects, result) effect = (effects ++ (effect ∷ []), result)

-- A call with an effect, which it has if it does not raise.
abbrev pub call : {A : Type 0} → Effect → Result A → Run A
call effect (ok a) = (effect ∷ [], ok a)
call effect (raised e) = ([], raised e)

-- What the operating system, the interpreter and the target answer.
pub record Host : Type 0 where
  pub open_socket : Result (Unit {0})
  pub open_tempfile : Result (Unit {0})
  pub mkdtemp : Result (Unit {0})
  pub write_script : ChannelKind → Result (Unit {0})
  pub remote_exec : ℕ → Result (Unit {0})
  pub receive : ChannelKind → Result String

-- `except OSError`
abbrev pub is_os_error : Exception → Bool
is_os_error (python (os_error kind) type_name message) = true
is_os_error _ = false

module _ (h : Host) where
  unfoldable pub open_fallback : Result (Unit {0}) → Run ChannelKind
  open_fallback (ok u) = (channel_opened unix_socket ∷ [], ok unix_socket)
  open_fallback (raised e) =
      if is_os_error e
      then call (channel_opened tempfile) h.open_tempfile then_run (λ u. ([], ok tempfile))
      else ([], raised e)

  unfoldable pub open_channel : (allow_socket : Bool) → Run ChannelKind
  unfolding open_fallback
  open_channel allow_socket =
      if allow_socket
      then open_fallback h.open_socket
      else call (channel_opened tempfile) h.open_tempfile then_run (λ u. ([], ok tempfile))

  -- `except (OSError, RuntimeError, ValueError)`
  translated : ℕ → Exception → Exception
  translated pid (python (os_error kind) type_name message) =
      probe (from_cause pid (os_error kind) type_name message)
  translated pid (python runtime_error type_name message) =
      probe (from_cause pid runtime_error type_name message)
  translated pid (python value_error type_name message) =
      probe (from_cause pid value_error type_name message)
  translated pid e = e

  translated_result : ℕ → Result (Unit {0}) → Result (Unit {0})
  unfolding translated
  translated_result pid (ok u) = ok u
  translated_result pid (raised e) = raised (translated pid e)

  unfoldable pub remote_exec : ℕ → Result (Unit {0})
  unfolding translated_result
  remote_exec pid = translated_result pid (h.remote_exec pid)

  -- The inner `try` statement: the script, the injection and the wait.
  unfoldable pub inject : ℕ → ChannelKind → Run String
  inject pid kind = call (script_written kind) (h.write_script kind) then_run (λ u.
      call injected (remote_exec pid) then_run (λ v. call (awaited kind) (h.receive kind)))

  -- The outer `try` statement.
  unfoldable pub with_channel : ℕ → ChannelKind → Run String
  with_channel pid kind =
      call directory_created h.mkdtemp then_run (λ u. finally (inject pid kind) directory_removed)

  unfoldable pub execute_in_target :
      {F : Type 0}
      → (parse_envelope : String → Result (Envelope F)) → ℕ
      → (allow_socket : Bool) → Run (Envelope F)
  execute_in_target parse_envelope pid allow_socket =
      open_channel allow_socket
      then_run (λ kind. finally (with_channel pid kind) channel_closed)
      then_run (λ raw. ([], parse_envelope raw))
