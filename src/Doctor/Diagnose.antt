-- ===== src/Doctor/Diagnose.antt =====
-- src/pidprobe/_doctor.py: `diagnose`.
use pidprobe.Base.{ℕ, Option, none, some, List, [], ◌∷◌, ◌++◌}
use pidprobe.Errors.{Result, ok, ◌>>=◌}
use pidprobe.Diagnosis.Check.{Check, Diagnosis}
use pidprobe.Doctor.Policy.{
  check_ptrace_scope, check_task_for_pid, check_target_process, check_target_owner,
  check_pid_namespace,
}
use pidprobe.Doctor.Python.{check_target_python, check_target_remote_debug}
use pidprobe.Doctor.Prober.{
  Environment, check_prober_remote_debug, check_return_channel, check_collector_plugins,
}

module _ (e : Environment) where
  unfoldable pub environment_checks : Result (List Check)
  environment_checks = do
    remote ← check_prober_remote_debug e
    channel ← check_return_channel e
    plugins ← check_collector_plugins e
    scope ← check_ptrace_scope e.prober
    task ← check_task_for_pid e.prober
    ok (remote ∷ channel ∷ plugins ∷ scope ∷ task ∷ [])

  unfoldable pub target_checks : ℕ → Result (List Check)
  target_checks pid = do
    process ← check_target_process e.prober pid
    owner ← check_target_owner e.prober pid
    namespace ← check_pid_namespace e.prober pid
    python ← check_target_python e.prober e.runtime pid
    remote ← check_target_remote_debug e.prober pid
    ok ((process ∷ owner ∷ namespace ∷ python) ++ (remote ∷ []))

  unfoldable pub diagnose : Option ℕ → Result Diagnosis
  unfolding environment_checks target_checks
  diagnose none = do checks ← environment_checks; ok (record { pid = none; checks = checks })
  diagnose (some pid) = do
    checks ← environment_checks
    more ← target_checks pid
    ok (record { pid = some pid; checks = checks ++ more })
