-- ===== src/Tests/Channels.antt =====
-- Probes over a socket and over a file.
use pidprobe.Base.{
  ℕ, zero, suc, ◌+◌, ◌*◌, ◌<◌, ◌≡◌, refl, ◌⊎◌, ◌<>◌, String, Bool, true, none, some, [], ◌∷◌,
  if◌then◌else◌, ltb, arith,
}
use pidprobe.Envelope.{Envelope, succeeded}
use pidprobe.Errors.{Seconds, Result, ok, raised, channel_error}
use pidprobe.Deadline.{Deadline, start}
use pidprobe.Channel.Directory.{FileSystem, name_too_long, short_tempdir}
use pidprobe.Channel.DirectoryLaws.{Fits, short_tempdir_lem}
use pidprobe.Channel.Socket
use pidprobe.Channel.Socket.{
  Accepted, connected, Received, received, closed, Timeout, Connection, decoded, out_of_range,
  accept, round,
}
use pidprobe.Channel.SocketLaws.{Finishes, receive-Finishes, receive-joined, receive_late}
use pidprobe.Channel.TempFile
use pidprobe.Channel.TempFile.{Reading, missing, content, Step, poll_interval}
use pidprobe.Channel.TempFileLaws.{Ends, round_start, receive-Ends}
use pidprobe.Channel.Execute.{Host, execute_in_target}
use pidprobe.Channel.ExecuteLaws.{IsProbe, execute_in_target-IsProbe}

abbrev show_g : Seconds → String
show_g seconds = "0.01"

-- 10 milliseconds, from the clock's reading 100 on.
abbrev deadline : Deadline
deadline = start 10000000 (some 7) 100

-- Two chunks, in one microsecond per reading, and the end of the stream.
abbrev chatty : Connection
chatty = record {
  clock = λ i. 100 + i * 1000;
  accept = λ t. connected;
  recv = λ k t. if ltb k 2 then received (65 + k) [] else closed;
  decode = λ bytes. ok "AB";
}

chatty_rounds : (i : ℕ) → i < 2 → round show_g chatty deadline i ≡ ok (some ((65 + i) ∷ []))
unfolding round
chatty_rounds zero l = refl
chatty_rounds (suc zero) l = refl
chatty_rounds (suc (suc i)) l = absurd (omega arith)

receive-joined_example :
    Socket.receive show_g chatty deadline 3 ≡ some (decoded show_g chatty deadline (65 ∷ 66 ∷ []))
unfolding accept round
receive-joined_example =
    receive-joined show_g chatty deadline 2 (λ k. (65 + k) ∷ []) refl chatty_rounds refl

-- A target that never stops sending.
abbrev endless : Connection
endless = record chatty { recv = λ k t. received 65 [] }

receive-Finishes_example : Finishes (Socket.receive show_g endless deadline 5001)
receive-Finishes_example = receive-Finishes show_g endless deadline 5000 (omega arith)

-- The budget runs out between the readings 0 and 1.
abbrev late : Connection
late = record chatty { clock = λ i. 100 + i * 20000000 }

receive_late_example : Socket.receive show_g late deadline 3 ≡ some (raised out_of_range)
receive_late_example = receive_late show_g late deadline 3 (omega arith) (omega arith)

-- The file appears after 7 milliseconds.
abbrev file : Seconds → Reading
file now = if ltb now 7000100 then missing else content "{}"

abbrev steps : ℕ → Step
steps k = record { reading = 1000; testing = 0; oversleep = 50 }

receive-Ends_example :
    Ends show_g file steps deadline
      (round_start show_g file steps deadline 100)
      (TempFile.receive show_g file steps deadline 3 100)
receive-Ends_example = receive-Ends show_g file steps deadline 100 2 (omega arith)

abbrev refusing : Host
refusing = record {
  open_socket = ok tt;
  open_tempfile = ok tt;
  mkdtemp = ok tt;
  write_script = λ kind. ok tt;
  remote_exec = λ pid. channel_error "refused";
  receive = λ kind. ok "{}";
}

abbrev parse : String → Result (Envelope Bool)
parse raw = ok (record { status = succeeded; error = none; payload = none })

execute_in_target-IsProbe_example : IsProbe (execute_in_target refusing parse 7 true).0
execute_in_target-IsProbe_example = execute_in_target-IsProbe refusing parse 7 true

abbrev two_bases : FileSystem
two_bases = record {
  gettempdir = "/var/folders/zz";
  is_dir = λ base. true;
  join_path = λ base directory file. base <> ("/" <> (directory <> ("/" <> file)));
  mkdtemp = λ base. ok (base <> "/pidprobe-a1b2c3d4");
}

short_tempdir_lem_example :
    (Fits two_bases "/var/folders/zz"
      × (short_tempdir two_bases ≡ two_bases.mkdtemp "/var/folders/zz"))
    ⊎ ((Fits two_bases "/var/folders/zz" → ⊥)
        × Fits two_bases "/tmp"
        × (short_tempdir two_bases ≡ two_bases.mkdtemp "/tmp"))
    ⊎ ((Fits two_bases "/var/folders/zz" → ⊥)
        × (Fits two_bases "/tmp" → ⊥)
        × (short_tempdir two_bases ≡ raised name_too_long))
short_tempdir_lem_example = short_tempdir_lem two_bases
