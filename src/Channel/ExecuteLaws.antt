-- ===== src/Channel/ExecuteLaws.antt =====
-- src/pidprobe/_channel.py: a probe cleans up after itself and injects only what can be answered.
use pidprobe.Base.{ℕ, String, Bool, true, false, Bool-cases, List, [], ◌∷◌, inl, inr}
use pidprobe.Envelope.{Envelope}
use pidprobe.Errors.{Exception, Result, ok, raised}
use pidprobe.Channel.Execute.{
  ChannelKind, unix_socket, tempfile, Effect, channel_opened, directory_created, script_written,
  injected, awaited, directory_removed, channel_closed, Run, call, finally, ◌then_run◌, Host,
  is_os_error, open_fallback, open_channel, remote_exec, inject, with_channel, execute_in_target,
}

-- The effects of a probe in their order: a channel is opened before a script exists, a script is
-- written for that channel before it is injected, and whatever was made is removed again: the
-- directory of the script first, then the channel. A step that raises leaves out those after it.
pub data IsProbe : List Effect → Type 0 where
  unopened : IsProbe []
  no_directory : (kind : ChannelKind) → IsProbe (channel_opened kind ∷ channel_closed ∷ [])
  no_script :
      (kind : ChannelKind)
      → IsProbe (channel_opened kind ∷ directory_created ∷ directory_removed ∷ channel_closed ∷ [])
  not_injected :
      (kind : ChannelKind)
      → IsProbe (
          channel_opened kind
          ∷ directory_created
          ∷ script_written kind
          ∷ directory_removed
          ∷ channel_closed
          ∷ [])
  unanswered :
      (kind : ChannelKind)
      → IsProbe (
          channel_opened kind
          ∷ directory_created
          ∷ script_written kind
          ∷ injected
          ∷ directory_removed
          ∷ channel_closed
          ∷ [])
  answered :
      (kind : ChannelKind)
      → IsProbe (
          channel_opened kind
          ∷ directory_created
          ∷ script_written kind
          ∷ injected
          ∷ awaited kind
          ∷ directory_removed
          ∷ channel_closed
          ∷ [])

-- A channel is open, or none is.
data Opens : Run ChannelKind → Type 0 where
  opens : (kind : ChannelKind) → Opens (channel_opened kind ∷ [], ok kind)
  refuses : (e : Exception) → Opens ([], raised e)

tempfile-Opens :
    (result : Result (Unit {0}))
    → Opens (call (channel_opened tempfile) result then_run (λ u. ([], ok tempfile)))
tempfile-Opens (ok u) = opens tempfile
tempfile-Opens (raised e) = refuses e

open_fallback-Opens : (h : Host) (socket : Result (Unit {0})) → Opens (open_fallback h socket)
unfolding open_fallback
open_fallback-Opens h (ok u) = opens unix_socket
open_fallback-Opens h (raised e) = elim (Bool-cases (is_os_error e)) [
  | inl b ↦ rw b (tempfile-Opens h.open_tempfile)
  | inr b ↦ rw b (refuses e)
]

open_channel-Opens : (h : Host) (allow_socket : Bool) → Opens (open_channel h allow_socket)
unfolding open_channel
open_channel-Opens h true = open_fallback-Opens h h.open_socket
open_channel-Opens h false = tempfile-Opens h.open_tempfile

-- The two `try` statements and the parse, on the answers of the four calls in them.
abbrev session :
    {A : Type 0}
    → ChannelKind
    → Result (Unit {0})
    → Result (Unit {0})
    → Result (Unit {0})
    → Result String
    → (String → Result A)
    → Run A
session kind directory script injection answer parse =
    (channel_opened kind ∷ [], ok kind)
    then_run (λ k.
        finally
          (call directory_created directory then_run (λ u.
            finally
              (call (script_written kind) script
                then_run (λ v. call injected injection then_run (λ w. call (awaited kind) answer)))
              directory_removed))
          channel_closed)
    then_run (λ raw. ([], parse raw))

session-IsProbe :
    {A : Type 0} (kind : ChannelKind) (directory script injection : Result (Unit {0}))
    (answer : Result String) (parse : String → Result A)
    → IsProbe (session kind directory script injection answer parse).0
session-IsProbe kind (raised e) script injection answer parse = no_directory kind
session-IsProbe kind (ok u) (raised e) injection answer parse = no_script kind
session-IsProbe kind (ok u) (ok v) (raised e) answer parse = not_injected kind
session-IsProbe kind (ok u) (ok v) (ok w) (raised e) parse = unanswered kind
session-IsProbe kind (ok u) (ok v) (ok w) (ok raw) parse = answered kind

module _ (h : Host) {F : Type 0} (parse_envelope : String → Result (Envelope F)) (pid : ℕ) where
  opened-IsProbe :
      (run : Run ChannelKind)
      → Opens run
      → IsProbe
          (run
            then_run (λ kind. finally (with_channel h pid kind) channel_closed)
            then_run (λ raw. ([], parse_envelope raw))).0
  unfolding with_channel inject
  opened-IsProbe _ (opens kind) =
      session-IsProbe kind h.mkdtemp (h.write_script kind) (remote_exec h pid) (h.receive kind)
        parse_envelope
  opened-IsProbe _ (refuses e) = unopened

  -- Whatever the system, the interpreter and the target answer, the effects of a probe are of this kind.
  pub execute_in_target-IsProbe :
      (allow_socket : Bool) → IsProbe (execute_in_target h parse_envelope pid allow_socket).0
  unfolding execute_in_target
  execute_in_target-IsProbe allow_socket =
      opened-IsProbe (open_channel h allow_socket) (open_channel-Opens h allow_socket)
