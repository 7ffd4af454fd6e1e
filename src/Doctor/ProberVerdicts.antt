-- ===== src/Doctor/ProberVerdicts.antt =====
-- src/pidprobe/_doctor.py: when each check of the prober and of the system blocks.
use pidprobe.Base.{◌≢◌, refl, String, Bool, true, false, not, ◌&&◌, ◌||◌, ◌==◌, List, [], ◌∷◌, All}
use pidprobe.Base.Text
use pidprobe.Procinfo.{is_linux, is_macos, ptrace_scope}
use pidprobe.Doctor.Prober.{
  Opening, opened, os_failure, Environment, check_prober_remote_debug, tempfile_channel_check,
  return_channel_check, check_return_channel, plugins_check, check_collector_plugins,
}
use pidprobe.Doctor.Python.{or_else}
use pidprobe.Doctor.Diagnose.{environment_checks}
use pidprobe.Doctor.Built.{
  Built, AllBuilt, all_built, nil, cons, then-Built, explained, unexplained, refuted-Built,
  refuted_else-Built, nonempty, nonempty_append, nonempty_append_right,
}
use pidprobe.Doctor.PolicyVerdicts.{
  scope_blocks, check_ptrace_scope-Built, check_task_for_pid-Built,
}

abbrev is_refused : Opening → Bool
is_refused (opened path) = false
is_refused (os_failure type_name message) = true

join-nonempty : (m : String) (ms : List String) → m ≢ "" → Text.join "; " (m ∷ ms) ≢ ""
unfolding Text.join
join-nonempty m [] h = h
join-nonempty m (n ∷ ms) h = nonempty_append_right m _ (nonempty_append "; " _ refl)

module _ (e : Environment) where
  -- The checks of the prober and of the system, and when each blocks.
  abbrev pub environment_verdicts : List (String × Bool)
  environment_verdicts =
      ("prober_remote_debug", not e.has_remote_exec || not e.remote_debug_enabled)
      ∷ ("return_channel", is_refused e.socket_channel && is_refused e.tempfile_channel)
      ∷ ("collector_plugins", false)
      ∷ ("ptrace_scope", is_linux e.prober.system && scope_blocks (ptrace_scope e.prober.system))
      ∷ ("task_for_pid", is_macos e.prober.system && not (e.prober.euid == 0))
      ∷ []

  prober_remote_debug-Built :
      Built "prober_remote_debug"
        (not e.has_remote_exec || not e.remote_debug_enabled)
        (check_prober_remote_debug e)
  unfolding check_prober_remote_debug
  prober_remote_debug-Built =
      refuted-Built (not e.has_remote_exec)
        (explained e.prober.repr _ (nonempty _ refl)
          (nonempty_append_right (or_else e.runtime.executable "python3") _ (nonempty _ refl))
          (nonempty _ refl))
        (refuted_else-Built (not e.remote_debug_enabled)
          (explained e.prober.repr _ (nonempty _ refl) (nonempty _ refl) (nonempty _ refl))
          (unexplained e.prober.repr _ refl))

  tempfile_channel_check-Built :
      (socket_error : String) (tempfile : Opening)
      → Built "return_channel"
          (is_refused tempfile)
          (tempfile_channel_check e socket_error tempfile)
  unfolding tempfile_channel_check
  tempfile_channel_check-Built socket_error (opened path) =
      explained e.prober.repr _ (nonempty_append _ _ refl) (nonempty _ refl) (nonempty _ refl)
  tempfile_channel_check-Built socket_error (os_failure type_name message) =
      explained e.prober.repr _ (nonempty_append _ _ refl) (nonempty _ refl) (nonempty _ refl)

  return_channel_check-Built :
      (socket : Opening)
      → Built "return_channel"
          (is_refused socket && is_refused e.tempfile_channel)
          (return_channel_check e socket)
  unfolding return_channel_check
  return_channel_check-Built (opened path) = unexplained e.prober.repr _ refl
  return_channel_check-Built (os_failure type_name message) =
      tempfile_channel_check-Built _ e.tempfile_channel

  plugins_check-Built :
      (messages : List String)
      → All (λ m. m ≢ "") messages
      → Built "collector_plugins" false (plugins_check e messages)
  unfolding plugins_check
  plugins_check-Built [] h = unexplained e.prober.repr _ refl
  plugins_check-Built (m ∷ ms) h =
      explained e.prober.repr _ (join-nonempty m ms h.0) (nonempty _ refl) (nonempty _ refl)

  pub environment_checks-AllBuilt :
      All (λ m. m ≢ "") e.messages → AllBuilt environment_verdicts (environment_checks e)
  unfolding environment_checks check_return_channel check_collector_plugins
  environment_checks-AllBuilt h = then-Built (AllBuilt _) prober_remote_debug-Built (λ c u.
      then-Built (AllBuilt _) (return_channel_check-Built e.socket_channel) (λ d v.
        then-Built (AllBuilt _) (plugins_check-Built e.messages h) (λ f w.
          then-Built (AllBuilt _) (check_ptrace_scope-Built e.prober) (λ g x.
            then-Built (AllBuilt _) (check_task_for_pid-Built e.prober)
              (λ i y. all_built _ (cons u (cons v (cons w (cons x (cons y nil))))))))))
