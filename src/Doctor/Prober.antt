-- ===== src/Doctor/Prober.antt =====
-- src/pidprobe/_doctor.py: the checks on the prober itself. What the interpreter, the channels and the
-- discovery of plugins do are fields of an `Environment`.
use pidprobe.Base.{String, ◌<>◌, Bool, not, List, [], ◌∷◌, length, if◌then◌else◌}
use pidprobe.Base.Decimal.{show}
use pidprobe.Base.Text
use pidprobe.Errors.{Result}
use pidprobe.Diagnosis.Check.{passed, warn, fail, Check, build}
use pidprobe.Doctor.Policy.{Prober, plain}
use pidprobe.Doctor.Python.{Runtime, or_else}

-- A channel that was opened and closed again, by its path, or the `OSError` of the attempt.
pub data Opening : Type 0 where
  opened : String → Opening
  os_failure : (type_name message : String) → Opening

pub record Environment : Type 0 where
  pub prober : Prober
  pub runtime : Runtime
  pub has_remote_exec : Bool
  pub remote_debug_enabled : Bool
  pub implementation : String
  pub version : String
  pub socket_channel : Opening
  pub tempfile_channel : Opening
  -- `available_collectors()`: the names, and the warnings that discovery logged
  pub collectors : List String
  pub messages : List String

module _ (e : Environment) where
  unfoldable pub check_prober_remote_debug : Result Check
  check_prober_remote_debug =
      let executable = or_else e.runtime.executable "python3" in
      if not e.has_remote_exec
      then build e.prober.repr (record {
        name = "prober_remote_debug";
        status = fail;
        summary = "this interpreter has no sys.remote_exec";
        cause =
            "pidprobe injects through PEP 768, which this build does not provide: it predates CPython 3.14 or was configured --without-remote-debug";
        confirm = executable <> " -c \"import sys; print(sys.is_remote_debug_enabled())\"";
        fix =
            "install pidprobe under a CPython 3.14+ build with remote debugging compiled in, such as a python.org or uv-managed one";
      })
      else if not e.remote_debug_enabled
      then build e.prober.repr (record {
        name = "prober_remote_debug";
        status = fail;
        summary = "remote debugging is switched off in " <> executable;
        cause =
            "PYTHON_DISABLE_REMOTE_DEBUG is set in pidprobe's own environment, and CPython then refuses sys.remote_exec with 'Remote debugging is not enabled' before it ever looks at the target";
        confirm = "env | grep PYTHON_DISABLE_REMOTE_DEBUG";
        fix = "unset PYTHON_DISABLE_REMOTE_DEBUG before running pidprobe";
      })
      else build e.prober.repr (
          plain "prober_remote_debug" passed (
            "pidprobe runs "
            <> (e.implementation <> (" " <> (e.version <> " with remote debugging enabled")))))

  unfoldable pub tempfile_channel_check : String → Opening → Result Check
  tempfile_channel_check socket_error (os_failure type_name message) = build e.prober.repr (record {
    name = "return_channel";
    status = fail;
    summary = "no return channel can be created here";
    cause =
        "binding an AF_UNIX socket failed ("
        <> (socket_error
            <> (") and so did creating a temporary directory ("
                <> (type_name
                    <> (": "
                        <> (message
                            <> "); the injected script would have nowhere to send its result")))));
    confirm = "python3 -c \"import tempfile; print(tempfile.mkdtemp())\"";
    fix = "point TMPDIR at a directory both pidprobe and the target may write to and read from";
  })
  tempfile_channel_check socket_error (opened path) = build e.prober.repr (record {
    name = "return_channel";
    status = warn;
    summary = "falling back to the temporary-file return channel at " <> path;
    cause =
        "no AF_UNIX socket could be bound ("
        <> (socket_error
            <> "); a sandbox, a filesystem without socket support, or a TMPDIR too long for the 104-byte sun_path limit all look like this");
    confirm = "python3 -c \"import tempfile; print(tempfile.gettempdir())\"";
    fix =
        "probing still works over the file fallback, only by polling; set TMPDIR to a short, writable path to get the socket back";
  })

  unfoldable pub return_channel_check : Opening → Result Check
  unfolding tempfile_channel_check
  return_channel_check (os_failure type_name message) =
      tempfile_channel_check (type_name <> (": " <> message)) e.tempfile_channel
  return_channel_check (opened path) =
      build e.prober.repr
        (plain "return_channel" passed ("an AF_UNIX return channel binds at " <> path))

  unfoldable pub check_return_channel : Result Check
  unfolding return_channel_check
  check_return_channel = return_channel_check e.socket_channel

  unfoldable pub plugins_check : List String → Result Check
  plugins_check [] = build e.prober.repr (
      plain "collector_plugins" passed
        (show (length e.collectors) <> (" collectors will run: " <> Text.join ", " e.collectors)))
  plugins_check (m ∷ ms) = build e.prober.repr (record {
    name = "collector_plugins";
    status = warn;
    summary =
        show (length (m ∷ ms))
        <> (" collector plugin(s) were skipped; "
            <> (show (length e.collectors) <> (" will run: " <> Text.join ", " e.collectors)));
    cause = Text.join "; " (m ∷ ms);
    confirm =
        "python3 -c \"import logging; logging.basicConfig(); from pidprobe import available_collectors; available_collectors()\"";
    fix =
        "reinstall or uninstall the package publishing the failing pidprobe.collectors entry point; a skipped plugin costs only its own snapshot section, so every other section still comes back";
  })

  unfoldable pub check_collector_plugins : Result Check
  unfolding plugins_check
  check_collector_plugins = plugins_check e.messages
