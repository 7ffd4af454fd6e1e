-- ===== src/Tests/Targets.antt =====
-- Collectors, an evaluation and the write back in a small target, and the demo.
use pidprobe.Base.{
  ◌<>◌, ◌≡◌, ◌⊎◌, refl, ℕ, ◌+◌, ◌≤◌, String, true, false, none, some, List, [], ◌∷◌, take, All,
  ◌==◌, ◌=ₛ◌, if◌then◌else◌, arith,
}
use pidprobe.Base.Int.{pos}
use pidprobe.Base.Steps.{Run, stay, go}
use pidprobe.Base.Text as Text
use pidprobe.Errors.{Exception, Result, ok, raised, python, os_error, other_os, value_error}
use pidprobe.Envelope.{Envelope, succeeded}
use pidprobe.SafeRepr.Names.{Unicode}
use pidprobe.SafeRepr.Process.{other, Exc, Attempt, done, raised as throws, Ref, Process}
use pidprobe.Registry.{is_exception}
use pidprobe.Collectors.Stacks.{StackFrame, collect_stacks}
use pidprobe.Collectors.Stacks.Masked.{Yields, IsOrderedMasked, collect_stacks-masked}
use pidprobe.Collectors.Objects.{count_objects}
use pidprobe.Collectors.Objects.Counts.{IsCount, count_objects_lem}
use pidprobe.Collectors.Fds as Fds
use pidprobe.Collectors.Fds.{fd_directory, describe, collect_fds}
use pidprobe.Collectors.Fds.Sockets.{AreClosed, collect_fds-AreClosed}
use pidprobe.Collectors.Fds.Listing.{Skips, IsListing, collect_fds_total}
use pidprobe.Channel.Directory.{FileSystem}
use pidprobe.Channel.Lifetime.{Sockets, unix_socket_channel}
use pidprobe.Channel.Lifetime.Laws.{left, lifetime, unix_socket_channel-left}
use pidprobe.Eval.{payload}
use pidprobe.Inject.WriteBack.{replaced, World, Run-final, Run-replaced}
use pidprobe.Demo.{ledger_writer, arm_deadlock}
use pidprobe.Demo.Deadlock as Demo
use pidprobe.Demo.Deadlock.{quiet_world, armed_world, deadlock, Run-deadlock}
use pidprobe.Pools.{whole, Pool, Pools}

abbrev tables : Unicode
tables = record { lower_other = λ n. n ∷ []; is_alnum_other = λ n. false }

abbrev broken : Exc
broken = record { type_name = "ValueError"; is_exception = true }

abbrev target : Process
target = record { object = λ r. done other; type_name = λ r. done "int"; repr = λ r. done "7" }

abbrev inner : StackFrame
inner = record {
  file = "a.py";
  line = 3;
  function = "f";
  f_locals = done (("token", 1) ∷ ("n", 2) ∷ []);
}

abbrev outer : StackFrame
outer = record { file = "a.py"; line = 9; function = "main"; f_locals = throws broken }

abbrev chain : List StackFrame
chain = inner ∷ outer ∷ []

collect_stacks-masked_example : Yields (IsOrderedMasked target tables) (
    collect_stacks target tables true
      (done ((8, ("worker", true)) ∷ []))
      (some 5)
      ((8, chain) ∷ (5, outer ∷ []) ∷ []))
collect_stacks-masked_example =
    collect_stacks-masked target tables (done ((8, ("worker", true)) ∷ [])) (some 5)
      ((8, chain) ∷ (5, outer ∷ []) ∷ [])

abbrev labels : List String
labels = "dict" ∷ "list" ∷ "dict" ∷ "app.Order" ∷ []

count_objects_lem_example : IsCount labels (count_objects labels)
count_objects_lem_example = count_objects_lem labels

abbrev gone {ℓ} : {A : Type ℓ} → Result A
gone = raised (python (os_error other_os) "OSError" "gone")

abbrev system : Fds.System ℕ
system = record {
  is_linux = true;
  is_directory = λ path. true;
  listdir = λ path. ok ("4" ∷ "x" ∷ "3" ∷ []);
  number = λ name.
      if name =ₛ "3"
      then ok 3
      else if name =ₛ "4"
      then ok 4
      else raised (python value_error "ValueError" "invalid literal");
  fstat = λ fd.
      ok (record { kind = if fd == 3 then some "socket" else some "file"; inode = 77; size = 5 });
  readlink = λ path. gone;
  is_tty = λ fd. false;
  has_so_domain = true;
  has_default_timeout = false;
  dup = λ fd. ok 9;
  socket = λ duplicate. gone;
}

gone_is_exception :
    (duplicate : ℕ) (e : Exception) → system.socket duplicate ≡ raised e → is_exception e ≡ true
gone_is_exception duplicate e h =
    let same : ◌≡◌ {A = Exception} (python (os_error other_os) "OSError" "gone") e =
      ground (arith, h) in
    rw⁻¹ same refl

collect_fds-AreClosed_example : AreClosed (collect_fds system).0
collect_fds-AreClosed_example = collect_fds-AreClosed system gone_is_exception

abbrev fd_names : List String
fd_names = "4" ∷ "x" ∷ "3" ∷ []

descriptions-Skip : All (λ name. Skips system (describe system "/proc/self/fd" name).1) fd_names
unfolding describe Fds.socket_details
descriptions-Skip = (tt, (refl, (tt, tt)))

on_linux : fd_directory system ≡ some "/proc/self/fd"
unfolding fd_directory
on_linux = refl

collect_fds_total_example :
    (fds : Fds.Fds ℕ) × ((collect_fds system).1 ≡ ok fds)
    × IsListing system "/proc/self/fd" fd_names fds
collect_fds_total_example =
    collect_fds_total system "/proc/self/fd" fd_names on_linux refl descriptions-Skip

abbrev answer : Envelope ℕ
answer = record { status = succeeded; error = none; payload = some (payload ("int", "<masked>")) }

abbrev evaluate : String → ℕ → Attempt Ref
evaluate expression namespace = done 3

-- Nothing but a prefix was taken.
abbrev cut_short : World
cut_short = record { phase = replaced; sibling = none; final = some (Text.take 5 "{\"status\"}") }

Run-final_example :
    ((cut_short.final ≡ none) ⊎ (cut_short.final ≡ some (Text.take 5 "{\"status\"}"))) × (4 ≤ 4)
Run-final_example = Run-final "{\"status\"}" 5 4 cut_short (Run-replaced "{\"status\"}" 5)

arming : Run Demo.WriterStep 2 (arm_deadlock quiet_world) armed_world
unfolding ledger_writer arm_deadlock
arming = go refl (go refl (stay armed_world))

Run-deadlock_example : (k : ℕ) × Run Demo.Step k armed_world deadlock × (0 + k ≡ 4)
Run-deadlock_example = Run-deadlock 2 0 armed_world armed_world arming refl (stay armed_world)

abbrev pool : Pool
pool = record {
  type_name = done "sqlalchemy.pool.QueuePool";
  size = done (some (done (whole (pos 5))));
  checked_out = done (some (throws broken));
  checked_in = done none;
  overflow = done (some (done (whole (pos 0))));
}

abbrev files : FileSystem
files = record {
  gettempdir = "/var/tmp";
  is_dir = λ path. true;
  join_path = λ base directory file. base <> ("/" <> (directory <> ("/" <> file)));
  mkdtemp = λ base. ok (base <> "/pidprobe-abcdefgh");
}

-- Sockets can be made, but not bound.
abbrev unbindable : Sockets
unbindable = record { has_af_unix = true; new_socket = ok tt; bind = λ path. gone; listen = ok tt }

unix_socket_channel-left_example :
    left
      (lifetime (unix_socket_channel files (λ directory file. directory <> file) unbindable))
      (0, 0)
    ≡ (0, 0)
unix_socket_channel-left_example =
    unix_socket_channel-left files (λ directory file. directory <> file) unbindable refl
      (λ path. refl)
