-- ===== src/Channel/Lifetime.antt =====
-- src/pidprobe/_channel.py: how the channels are made and closed, with the directories and sockets that they
-- take and give back. What the system answers are arguments; closing does not fail.
pub mod Laws
use pidprobe.Base.{
  ◌≡◌, refl, ap, ℕ, suc, ◌+◌, ◌-◌, String, Bool, true, false, Bool-cases, inl, inr, Option, none,
  some, List, [], ◌∷◌, ◌++◌, if◌then◌else◌, arith,
}
use pidprobe.Errors.{Exception, python, os_error, other_os, Result, ok, raised, ◌>>=◌}
use pidprobe.Channel.Directory.{FileSystem, short_tempdir}
use pidprobe.Channel.Execute.{is_os_error}

pub data Effect : Type 0 where
  directory_made socket_made socket_closed directory_removed : Effect

-- What `socket.socket(AF_UNIX, SOCK_STREAM)`, `bind` and `listen` come to.
pub record Sockets : Type 0 where
  pub has_af_unix : Bool
  pub new_socket : Result (Unit {0})
  pub bind : String → Result (Unit {0})
  pub listen : Result (Unit {0})

-- A channel: whether it has a socket, its directory, and the path that the target writes to.
pub record Channel : Type 0 where
  pub has_server : Bool
  pub directory : String
  pub path : String

abbrev pub Run : Type 0 → Type 0
Run A = List Effect × Result A

-- `UnixSocketChannel.close` and `TempFileChannel.close`
unfoldable pub close : Channel → List Effect
close channel =
    if channel.has_server then socket_closed ∷ directory_removed ∷ [] else directory_removed ∷ []

module _ (fs : FileSystem) (join : (directory file : String) → String) (s : Sockets) where
  -- The `try` statement, for what binding and listening come to.
  listening : Channel → Result (Unit {0}) → Run Channel
  unfolding close
  listening channel (ok u) = ([], ok channel)
  listening channel (raised e) = if is_os_error e then (close channel, raised e) else ([], raised e)

  with_socket : String → Result (Unit {0}) → Run Channel
  unfolding listening
  with_socket directory (raised e) = ([], raised e)
  with_socket directory (ok u) =
      let path = join directory "s.sock" in
      let channel : Channel = record { has_server = true; directory = directory; path = path } in
      let (effects, result) = listening channel (s.bind path >>= (λ v. s.listen)) in
      (socket_made ∷ effects, result)

  with_directory : Result String → Run Channel
  unfolding with_socket
  with_directory (raised e) = ([], raised e)
  with_directory (ok directory) =
      let (effects, result) = with_socket directory s.new_socket in
      (directory_made ∷ effects, result)

  -- `UnixSocketChannel()`
  unfoldable pub unix_socket_channel : Run Channel
  unfolding with_directory
  unix_socket_channel = if s.has_af_unix then with_directory (short_tempdir fs) else (
    [],
    raised
        (python (os_error other_os) "OSError" "AF_UNIX sockets are not supported on this platform"),
  )

-- `TempFileChannel()`, for what `mkdtemp` comes to.
unfoldable pub tempfile_channel :
    (join : (directory file : String) → String) → Result String → Run Channel
tempfile_channel join (raised e) = ([], raised e)
tempfile_channel join (ok directory) = (
  directory_made ∷ [],
  ok (record { has_server = false; directory = directory; path = join directory "result.json" }),
)
