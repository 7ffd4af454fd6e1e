-- ===== src/Errors.antt =====
-- src/pidprobe/_errors.py, and the exceptions of Python that the program tells apart.
use pidprobe.Base.{ℕ, String, ◌<>◌, Option, none, some}
use pidprobe.Base.Decimal.{show}

-- A duration or a reading of the clock, in nanoseconds: the source's floats hold seconds.
abbrev pub Seconds : Type 0
Seconds = ℕ

-- `ErrorInfo` of src/pidprobe/_envelope.py
pub record ErrorInfo : Type 0 where
  pub type_name : String
  pub message : String
  pub traceback : String

-- The class of a `ProbeError`, with the attributes that its constructor sets. `generic` is
-- `ProbeError` itself, or a subclass that the source does not define.
pub data ProbeKind : Type 0 where
  generic : ProbeKind
  attach : (pid : ℕ) (hint : String) → ProbeKind
  no_such_process : (pid : ℕ) (hint : String) → ProbeKind
  timeout : Seconds → Option ℕ → ProbeKind
  channel : ProbeKind
  target : (pid : ℕ) → ErrorInfo → (action : String) → ProbeKind

-- `message` is `str(error)`.
pub record ProbeError : Type 0 where
  pub kind : ProbeKind
  pub message : String

-- The subclasses of `OSError` that the program names.
pub data OsKind : Type 0 where
  process_lookup permission file_not_found broken_pipe timed_out other_os : OsKind

-- Which `except` clauses take an exception. `other_base` derives from `BaseException` alone.
pub data Kind : Type 0 where
  os_error : OsKind → Kind
  runtime_error value_error type_error other_exception keyboard_interrupt other_base : Kind

-- Any exception: a `ProbeError`, or another with the name of its class and its text.
pub data Exception : Type 0 where
  probe : ProbeError → Exception
  python : Kind → (type_name message : String) → Exception

pub data Result {ℓ} (A : Type ℓ) : Type ℓ where
  ok : A → Result A
  raised : Exception → Result A

infixl 5 ◌>>=◌
abbrev pub ◌>>=◌ {ℓ κ} : {A : Type ℓ} {B : Type κ} → Result A → (A → Result B) → Result B
ok a >>= f = f a
raised e >>= f = raised e

-- `raise ChannelError(message)`
abbrev pub channel_error {ℓ} : {A : Type ℓ} → String → Result A
channel_error message = raised (probe (record { kind = channel; message = message }))

abbrev pub permission_hint : String
permission_hint =
    "the operating system refused access to the process; on macOS sys.remote_exec needs root (task_for_pid), so retry with sudo; on Linux check /proc/sys/kernel/yama/ptrace_scope or grant CAP_SYS_PTRACE"

abbrev pub no_such_process_hint : String
no_such_process_hint = "no such process; it may have exited already"

abbrev pub refused_hint : String
refused_hint =
    "the interpreter refused the injection; the target may run a different Python build than pidprobe, may be older than 3.14, or may have remote debugging disabled via PYTHON_DISABLE_REMOTE_DEBUG=1 or a --without-remote-debug build"

abbrev pub generic_hint : String
generic_hint = "sys.remote_exec failed"

-- `AttachError.__init__` with a cause, up to the class.
attach_message : ℕ → String → String → String → String
attach_message pid hint type_name message =
    "cannot attach to pid "
    <> (show pid <> (": " <> (hint <> (" (" <> (type_name <> (": " <> (message <> ")")))))))

-- `AttachError.from_cause`; `_remote_exec` hands it an OSError, a RuntimeError or a ValueError.
attach_kind : Kind → ℕ → ProbeKind
attach_kind (os_error process_lookup) pid = no_such_process pid no_such_process_hint
attach_kind (os_error permission) pid = attach pid permission_hint
attach_kind runtime_error pid = attach pid refused_hint
attach_kind value_error pid = attach pid refused_hint
attach_kind _ pid = attach pid generic_hint

hint_of : ProbeKind → String
hint_of (attach pid hint) = hint
hint_of (no_such_process pid hint) = hint
hint_of _ = ""

unfoldable pub from_cause : ℕ → Kind → String → String → ProbeError
unfolding attach_message attach_kind hint_of
from_cause pid kind type_name message =
    let k = attach_kind kind pid in
    record { kind = k; message = attach_message pid (hint_of k) type_name message }

-- `ProbeTimeoutError.__init__`. `show_g` is the float format `{seconds:g}`.
unfoldable pub timeout_error : (Seconds → String) → Seconds → Option ℕ → ProbeError
timeout_error show_g seconds pid = record {
  kind = timeout seconds pid;
  message =
      "target never reached a safe eval point within "
      <> (show_g seconds
          <> ("s; it may be blocked inside a C extension or a long syscall; try an out-of-process sampler like py-spy, and run `pidprobe doctor "
              <> (elim pid [ none ↦ "<pid>" | some n ↦ show n ] <> "` for attach diagnostics")));
}

-- `TargetError.__init__`
unfoldable pub target_error : ℕ → ErrorInfo → String → ProbeError
target_error pid error action = record {
  kind = target pid error action;
  message =
      action
      <> (" failed inside pid "
          <> (show pid <> (": " <> (error.type_name <> (": " <> error.message)))));
}
