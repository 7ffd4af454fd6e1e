-- ===== src/Doctor/Policy.antt =====
-- src/pidprobe/_attach_policy.py: does the operating system let the prober reach the target?
use pidprobe.Base.{ℕ, String, ◌<>◌, not, Option, none, some, ◌=ₛ◌, if◌then◌else◌, ◌==◌}
use pidprobe.Base.Decimal.{show}
use pidprobe.Base.Int.{ℤ, pos, ltb_ℤ, eqb_ℤ, show_ℤ}
use pidprobe.Errors.{Exception, Result, raised, ◌>>=◌}
use pidprobe.Procinfo.{System, is_linux, is_macos, ptrace_scope, process_uid, pid_namespace}
use pidprobe.Diagnosis.Check.{Status, passed, warn, fail, skipped, Check, build}

-- What `os.kill(pid, 0)` does. What it raises that is no `OSError` is `invalid`: an `OverflowError` for
-- a pid that is no machine integer.
pub data Signal : Type 0 where
  signalled : Signal
  lookup_error : Signal
  refused : (type_name message : String) → Signal
  invalid : Exception → Signal

-- The prober: its system, the `repr` of texts, `os.geteuid()` and `os.kill(pid, 0)`.
pub record Prober : Type 0 where
  pub system : System
  pub repr : String → String
  pub euid : ℕ
  pub kill : ℕ → Signal

abbrev pub plain : String → Status → String → Check
plain name status summary = record {
  name = name;
  status = status;
  summary = summary;
  cause = "";
  confirm = "";
  fix = "";
}

-- `_PTRACE_ADVICE.get(scope, _PTRACE_ADVICE[3])`: the status, the cause and the fix.
unfoldable pub ptrace_advice : ℤ → Status × String × String
ptrace_advice scope =
    if eqb_ℤ scope (pos 1)
    then (
      warn,
      "PEP 768 writes into the target with process_vm_writev, which needs PTRACE_MODE_ATTACH; at scope 1 only a direct ancestor of the target, or a process holding CAP_SYS_PTRACE, is granted it",
      "run pidprobe as root, give its interpreter the capability with `sudo setcap cap_sys_ptrace+ep $(readlink -f $(command -v python3))`, or relax the knob with `sudo sysctl -w kernel.yama.ptrace_scope=0`",
    )
    else if eqb_ℤ scope (pos 2)
    then (
      fail,
      "at scope 2 only a process holding CAP_SYS_PTRACE may attach to anything, so the PTRACE_MODE_ATTACH check PEP 768 needs is refused",
      "run pidprobe as root or with CAP_SYS_PTRACE, or relax the knob with `sudo sysctl -w kernel.yama.ptrace_scope=0`",
    )
    else (
      fail,
      "at scope 3 attaching is disabled for every process, and the value cannot be lowered again while the machine is running",
      "set `kernel.yama.ptrace_scope` to 0 or 1 in /etc/sysctl.d/ and reboot; nothing can attach until then",
    )

module _ (p : Prober) where
  unfoldable pub ptrace_scope_check : Option ℤ → Result Check
  unfolding ptrace_advice
  ptrace_scope_check none = build p.repr (
      plain "ptrace_scope" passed
        "no Yama ptrace_scope knob: this kernel does not restrict attaching")
  ptrace_scope_check (some scope) =
      if not (ltb_ℤ (pos 0) scope)
      then build p.repr (
          plain "ptrace_scope" passed
            ("kernel.yama.ptrace_scope is " <> (show_ℤ scope <> ": attaching is unrestricted")))
      else let (status, cause, fix) = ptrace_advice scope in
        build p.repr (record {
          name = "ptrace_scope";
          status = status;
          summary = "kernel.yama.ptrace_scope is " <> show_ℤ scope;
          cause = cause;
          confirm = "cat /proc/sys/kernel/yama/ptrace_scope";
          fix = fix;
        })

  unfoldable pub check_ptrace_scope : Result Check
  unfolding ptrace_scope_check
  check_ptrace_scope =
      if not (is_linux p.system)
      then build p.repr
          (plain "ptrace_scope" skipped "the Yama ptrace_scope policy only exists on Linux")
      else ptrace_scope_check (ptrace_scope p.system)

  unfoldable pub check_task_for_pid : Result Check
  check_task_for_pid =
      if not (is_macos p.system)
      then build p.repr (plain "task_for_pid" skipped "task_for_pid access is a macOS restriction")
      else if p.euid == 0
      then build p.repr
          (plain "task_for_pid" passed "pidprobe runs as root, which macOS grants task_for_pid")
      else build p.repr (record {
        name = "task_for_pid";
        status = fail;
        summary = "pidprobe runs as uid " <> (show p.euid <> ", which macOS denies task_for_pid");
        cause =
            "sys.remote_exec must take the target's task port, and macOS hands that out only to root or to a binary carrying the com.apple.system-task-ports entitlement; without it the attach fails with 'Cannot get task port'";
        confirm = "id -u";
        fix =
            "rerun the probe under sudo, e.g. `sudo pidprobe snap <PID>`; the entitlement route needs a signed, entitled interpreter and is not something pidprobe can grant itself";
      })

  unfoldable pub signal_check : ℕ → Signal → Result Check
  signal_check pid lookup_error = build p.repr (record {
    name = "target_process";
    status = fail;
    summary = "no process with pid " <> (show pid <> " exists");
    cause =
        "the pid is not in use; a target that already exited and a pid that only means something inside a container both look like this";
    confirm = "ps -p " <> show pid;
    fix = "find the running target with `pgrep -af python` and pass its pid";
  })
  signal_check pid (refused type_name message) = build p.repr (record {
    name = "target_process";
    status = fail;
    summary = "pid " <> (show pid <> " exists but this user may not signal it");
    cause =
        "a bare signal 0 was refused ("
        <> (type_name
            <> (": "
                <> (message
                    <> "), and writing into the process is strictly more privileged than that")));
    confirm = "ps -o user=,pid= -p " <> show pid;
    fix = "rerun pidprobe as the user owning the target, or as root";
  })
  signal_check pid signalled = build p.repr (
      plain "target_process" passed
        ("pid " <> (show pid <> " is running and this user may signal it")))
  signal_check pid (invalid e) = raised e

  unfoldable pub check_target_process : ℕ → Result Check
  unfolding signal_check
  check_target_process pid = signal_check pid (p.kill pid)

  unfoldable pub owner_check : ℕ → Option ℤ → Result Check
  owner_check pid none = build p.repr (record {
    name = "target_owner";
    status = skipped;
    summary = "could not determine which user owns pid " <> show pid;
    cause = "";
    confirm = "ps -o user=,uid= -p " <> show pid;
    fix = "";
  })
  owner_check pid (some uid) =
      if eqb_ℤ uid (pos p.euid)
      then build p.repr (
          plain "target_owner" passed
            ("pid " <> (show pid <> (" and pidprobe both run as uid " <> show_ℤ uid))))
      else if p.euid == 0
      then build p.repr (
          plain "target_owner" passed (
            "pid " <> (show pid <> (" runs as uid " <> (show_ℤ uid <> "; pidprobe runs as root")))))
      else build p.repr (record {
        name = "target_owner";
        status = fail;
        summary =
            "pid "
            <> (show pid
                <> (" runs as uid " <> (show_ℤ uid <> (", pidprobe as uid " <> show p.euid))));
        cause =
            "attaching writes into another process' memory, which the kernel permits only within one user unless the prober is privileged";
        confirm = "ps -o user=,uid= -p " <> (show pid <> "; id -u");
        fix =
            "rerun as that user (`sudo -u '#"
            <> (show_ℤ uid <> ("' pidprobe snap " <> (show pid <> "`) or as root")));
      })

  unfoldable pub check_target_owner : ℕ → Result Check
  unfolding owner_check
  check_target_owner pid = do uid ← process_uid p.system pid; owner_check pid uid

  unfoldable pub namespace_check : ℕ → Option String → Option String → Result Check
  namespace_check pid (some own) (some theirs) =
      if own =ₛ theirs
      then build p.repr (
          plain "pid_namespace" passed
            ("pidprobe and pid " <> (show pid <> (" share PID namespace " <> own))))
      else build p.repr (record {
        name = "pid_namespace";
        status = fail;
        summary =
            "pid "
            <> (show pid <> (" is in PID namespace " <> (theirs <> (", pidprobe in " <> own))));
        cause =
            "the same number names different processes on the two sides of a namespace boundary, and the debugger interface PEP 768 writes to cannot be reached across it";
        confirm = "readlink /proc/self/ns/pid /proc/" <> (show pid <> "/ns/pid");
        fix =
            "run pidprobe inside the container (`docker exec <container> pidprobe snap <pid-inside>`) or join first with `nsenter --target "
            <> (show pid <> " --pid --mount`");
      })
  namespace_check pid _ _ = build p.repr (record {
    name = "pid_namespace";
    status = skipped;
    summary = "could not read the PID namespace of pidprobe or of pid " <> show pid;
    cause = "";
    confirm = "readlink /proc/self/ns/pid /proc/" <> (show pid <> "/ns/pid");
    fix = "";
  })

  unfoldable pub check_pid_namespace : ℕ → Result Check
  unfolding namespace_check
  check_pid_namespace pid =
      if not (is_linux p.system)
      then build p.repr (
          plain "pid_namespace" skipped
            "PID namespaces are a Linux concept; a container on this host runs its own kernel and cannot be reached by pid at all")
      else namespace_check pid (pid_namespace p.system "self") (pid_namespace p.system (show pid))
