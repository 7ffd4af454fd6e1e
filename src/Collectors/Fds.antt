-- ===== src/Collectors/Fds.antt =====
-- src/pidprobe/collectors/_fds.py: what the snippet does in the target, for the answers of the system.
-- The descriptors that it opens and closes itself are the effects of a run. Closing does not fail.
pub mod Listing
pub mod Sockets
use pidprobe.Base.{
  ◌<>◌, ℕ, String, Bool, true, false, not, ◌&&◌, ◌||◌, Option, none, some, List, [], ◌∷◌, ◌++◌,
  length, leb, ◌=ₛ◌, if◌then◌else◌,
}
use pidprobe.Base.Json.{Json, null, str, arr, Items, nil, cons}
use pidprobe.Base.Sort.{sort}
use pidprobe.Errors.{Exception, python, os_error, value_error, Result, ok, raised, ◌>>=◌}
use pidprobe.Channel.Execute.{is_os_error}
use pidprobe.Registry.{is_exception}

-- What `getsockname()` gives; bytes are given by the text that they decode to.
pub data Part (F : Type 0) : Type 0 where
  part_bytes : String → Part F
  part_other : Json F → Part F

pub data SocketName (F : Type 0) : Type 0 where
  name_bytes : String → SocketName F
  name_tuple : List (Part F) → SocketName F
  name_other : Json F → SocketName F

-- What a socket object answers. A family or a type is its name, or its text where it has none.
pub record Socket (F : Type 0) : Type 0 where
  pub family : Result String
  pub type : Result String
  pub getsockname : Result (SocketName F)
  pub getpeername : Result (SocketName F)

pub record Details (F : Type 0) : Type 0 where
  pub family : String
  pub type : String
  pub laddr : Json F
  pub raddr : Json F

pub data Effect : Type 0 where
  duplicated : (fd duplicate : ℕ) → Effect
  closed : (fd : ℕ) → Effect

-- `os.fstat`, as far as it is looked at: the kind that the mode stands for, if the table has it.
pub record Info : Type 0 where
  pub kind : Option String
  pub inode : ℕ
  pub size : ℕ

pub record System (F : Type 0) : Type 0 where
  pub is_linux : Bool
  pub is_directory : String → Bool
  pub listdir : String → Result (List String)
  -- `int(name)`
  pub number : String → Result ℕ
  pub fstat : ℕ → Result Info
  pub readlink : String → Result String
  pub is_tty : ℕ → Bool
  pub has_so_domain : Bool
  pub has_default_timeout : Bool
  pub dup : ℕ → Result ℕ
  -- `socket.socket(fileno=duplicate)`
  pub socket : ℕ → Result (Socket F)

pub record Entry (F : Type 0) : Type 0 where
  pub fd : ℕ
  pub kind : String
  pub target : Option String
  pub inode : ℕ
  pub is_tty : Bool
  pub size : Option ℕ
  -- `entry["socket"]`, if it is set; it may be None.
  pub socket : Option (Option (Details F))

pub record Fds (F : Type 0) : Type 0 where
  pub supported : Bool
  pub source : Option String
  pub count : ℕ
  pub descriptors : List (Entry F)

abbrev pub Run : Type 0 → Type 0
Run A = List Effect × Result A

-- `except (ValueError, OSError)`
abbrev pub is_skipped : Exception → Bool
is_skipped (python value_error type_name message) = true
is_skipped e = is_os_error e

-- `except Exception: return None`
or_none : {A : Type 0} → Result A → Result (Option A)
or_none (ok a) = ok (some a)
or_none (raised e) = if is_exception e then ok none else raised e

module _ {F : Type 0} where
  part : Part F → Json F
  part (part_bytes text) = str text
  part (part_other value) = value

  parts : List (Part F) → Items F
  unfolding part
  parts [] = nil
  parts (x ∷ xs) = cons (part x) (parts xs)

  address_of : SocketName F → Json F
  unfolding parts
  address_of (name_bytes text) = str text
  address_of (name_tuple xs) = arr (parts xs)
  address_of (name_other value) = value

  unfoldable pub address : Result (SocketName F) → Result (Json F)
  unfolding address_of
  address (ok value) = ok (address_of value)
  address (raised e) = if is_os_error e then ok null else raised e

  -- The second `try` statement, up to its `finally`.
  details : Socket F → Result (Details F)
  unfolding address
  details sock = do
    family ← sock.family
    type ← sock.type
    laddr ← address sock.getsockname
    raddr ← address sock.getpeername
    ok (record { family = family; type = type; laddr = laddr; raddr = raddr })

  module _ (s : System F) where
    -- What is done with the socket object of a duplicate.
    wrapped : ℕ → Result (Socket F) → Run (Option (Details F))
    unfolding or_none details
    wrapped duplicate (ok sock) = (closed duplicate ∷ [], or_none (details sock))
    wrapped duplicate (raised e) =
        if is_exception e then (closed duplicate ∷ [], ok none) else ([], raised e)

    with_duplicate : ℕ → Result ℕ → Run (Option (Details F))
    unfolding wrapped
    with_duplicate fd (raised e) = ([], if is_os_error e then ok none else raised e)
    with_duplicate fd (ok duplicate) =
        let (effects, result) = wrapped duplicate (s.socket duplicate) in
        (duplicated fd duplicate ∷ effects, result)

    unfoldable pub socket_details : ℕ → Run (Option (Details F))
    unfolding with_duplicate
    socket_details fd =
        if not s.has_so_domain || s.has_default_timeout
        then ([], ok none)
        else with_duplicate fd (s.dup fd)

    unfoldable pub fd_directory : Option String
    fd_directory =
        if s.is_linux && s.is_directory "/proc/self/fd"
        then some "/proc/self/fd"
        else if s.is_directory "/dev/fd"
        then some "/dev/fd"
        else none

    link : Result String → Result (Option String)
    link (ok target) = ok (some target)
    link (raised e) = if is_os_error e then ok none else raised e

    entry : ℕ → Info → Option String → Option (Option (Details F)) → Entry F
    entry fd info target socket =
        let kind : String = elim info.kind [ none ↦ "unknown" | some kind ↦ kind ] in
        record {
          fd = fd;
          kind = kind;
          target = target;
          inode = info.inode;
          is_tty = s.is_tty fd;
          size = if kind =ₛ "file" then some info.size else none;
          socket = socket;
        }

    -- The entry of a file, whose socket is looked into if it is one.
    described : ℕ → Info → Option String → Run (Entry F)
    unfolding entry
    described fd info target =
        let (effects, result) = socket_details fd in
        let is_socket : Bool = elim info.kind [ none ↦ false | some kind ↦ kind =ₛ "socket" ] in
        if is_socket
        then (effects, result >>= (λ details. ok (entry fd info target (some details))))
        else ([], ok (entry fd info target none))

    described_link : ℕ → Info → Result (Option String) → Run (Entry F)
    unfolding described
    described_link fd info (ok target) = described fd info target
    described_link fd info (raised e) = ([], raised e)

    described_info : (directory name : String) → ℕ → Result Info → Run (Entry F)
    unfolding described_link link
    described_info directory name fd (ok info) =
        described_link fd info (link (s.readlink (directory <> ("/" <> name))))
    described_info directory name fd (raised e) = ([], raised e)

    described_number : (directory name : String) → Result ℕ → Run (Entry F)
    unfolding described_info
    described_number directory name (ok fd) = described_info directory name fd (s.fstat fd)
    described_number directory name (raised e) = ([], raised e)

    unfoldable pub describe : (directory name : String) → Run (Entry F)
    unfolding described_number
    describe directory name = described_number directory name (s.number name)

    -- The body of the `for` statement, and the rounds after it.
    listed : Run (Entry F) → Run (List (Entry F)) → Run (List (Entry F))
    listed (effects, ok entry) (later, rest) =
        (effects ++ later, rest >>= (λ entries. ok (entry ∷ entries)))
    listed (effects, raised e) (later, rest) =
        if is_skipped e then (effects ++ later, rest) else (effects, raised e)

    unfoldable pub listing : (directory : String) → List String → Run (List (Entry F))
    unfolding listed
    listing directory [] = ([], ok [])
    listing directory (name ∷ names) = listed (describe directory name) (listing directory names)

    goes_before : Entry F → Entry F → Bool
    goes_before x y = leb x.fd y.fd

    collected : (directory : String) → Result (List String) → Run (Fds F)
    unfolding goes_before
    collected directory (raised e) = ([], raised e)
    collected directory (ok names) =
        let (effects, found) = listing directory names in
        (
          effects,
          found >>= (λ entries. ok (record {
            supported = true;
            source = some directory;
            count = length entries;
            descriptors = sort goes_before entries;
          })),
        )

    unfoldable pub collect_fds : Run (Fds F)
    unfolding collected
    collect_fds = elim fd_directory [
      | none ↦ ([], ok (record { supported = false; source = none; count = 0; descriptors = [] }))
      | some directory ↦ collected directory (s.listdir directory)
    ]
