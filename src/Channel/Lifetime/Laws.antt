-- ===== src/Channel/Lifetime/Laws.antt =====
-- src/pidprobe/_channel.py: a channel that is closed, or that could not be made, leaves nothing behind, but
-- for one case.
use pidprobe.Base.{
  ◌≡◌, refl, ℕ, suc, ◌-◌, String, Bool, true, false, List, [], ◌∷◌, ◌++◌, if◌then◌else◌,
}
use pidprobe.Errors.{Exception, Result, ok, raised, ◌>>=◌}
use pidprobe.Channel.Directory.{FileSystem, short_tempdir}
use pidprobe.Channel.Execute.{is_os_error}
use pidprobe.Channel.Lifetime.{
  Effect, directory_made, socket_made, socket_closed, directory_removed, Sockets, Channel, Run,
  close, listening, with_socket, with_directory, unix_socket_channel, tempfile_channel,
}

-- The directories and the sockets that are there after the effects, for those before.
abbrev pub left : List Effect → ℕ × ℕ → ℕ × ℕ
left [] (directories, sockets) = (directories, sockets)
left (directory_made ∷ effects) (directories, sockets) = left effects (suc directories, sockets)
left (directory_removed ∷ effects) (directories, sockets) = left effects (directories - 1, sockets)
left (socket_made ∷ effects) (directories, sockets) = left effects (directories, suc sockets)
left (socket_closed ∷ effects) (directories, sockets) = left effects (directories, sockets - 1)

-- The closing of a channel that was made.
abbrev pub closing : Result Channel → List Effect
closing (ok channel) = close channel
closing (raised e) = []

-- What is done with a channel from its making to its closing.
abbrev pub lifetime : Run Channel → List Effect
lifetime (effects, result) = effects ++ closing result

if-left :
    (b : Bool) (x y : Run Channel)
    → left (lifetime x) (0, 0) ≡ (0, 0)
    → left (lifetime y) (0, 0) ≡ (0, 0)
    → left (lifetime (if b then x else y)) (0, 0) ≡ (0, 0)
if-left true x y h k = h
if-left false x y h k = k

abbrev pub OnlyOs : Result (Unit {0}) → Type 0
OnlyOs (ok u) = Unit
OnlyOs (raised e) = is_os_error e ≡ true

module _ (fs : FileSystem) (join : (directory file : String) → String) (s : Sockets) where
  listening-left :
      (directory path : String) (result : Result (Unit {0}))
      → OnlyOs result
      → left
          (directory_made
            ∷ socket_made
            ∷ lifetime (
                listening fs join s
                  (record { has_server = true; directory = directory; path = path })
                  result))
          (0, 0)
        ≡ (0, 0)
  unfolding listening close
  listening-left directory path (ok u) h = refl
  listening-left directory path (raised e) h = rw h refl

  with_directory-left :
      (made : Result String)
      → s.new_socket ≡ ok tt
      → ((path : String) → OnlyOs (s.bind path >>= (λ v. s.listen)))
      → left (lifetime (with_directory fs join s made)) (0, 0) ≡ (0, 0)
  unfolding with_directory with_socket
  with_directory-left (raised e) h k = refl
  with_directory-left (ok directory) h k =
      rw h (listening-left directory (join directory "s.sock") _ (k (join directory "s.sock")))

  -- If a socket can be made, and binding it and listening raise nothing but OSErrors, then after the
  -- making of a channel and its closing, if it was made, no directory and no socket is left.
  pub unix_socket_channel-left :
      s.new_socket ≡ ok tt
      → ((path : String) → OnlyOs (s.bind path >>= (λ v. s.listen)))
      → left (lifetime (unix_socket_channel fs join s)) (0, 0) ≡ (0, 0)
  unfolding unix_socket_channel
  unix_socket_channel-left h k =
      if-left s.has_af_unix _ _ (with_directory-left (short_tempdir fs) h k) refl

  -- If a directory was made for the channel and then no socket can be made, whatever is raised, the
  -- directory is left behind.
  unix_socket_channel-left_behind :
      (directory : String) (e : Exception)
      → s.has_af_unix ≡ true
      → short_tempdir fs ≡ ok directory
      → s.new_socket ≡ raised e
      → left (lifetime (unix_socket_channel fs join s)) (0, 0) ≡ (1, 0)
  unfolding unix_socket_channel with_directory with_socket
  unix_socket_channel-left_behind directory e a h k = rw (a, h, k) refl

pub tempfile_channel-left :
    (join : (directory file : String) → String) (made : Result String)
    → left (lifetime (tempfile_channel join made)) (0, 0) ≡ (0, 0)
unfolding tempfile_channel close
tempfile_channel-left join (raised e) = refl
tempfile_channel-left join (ok directory) = refl
