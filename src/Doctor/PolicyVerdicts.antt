-- ===== src/Doctor/PolicyVerdicts.antt =====
-- src/pidprobe/_attach_policy.py: when each check of the attach policy blocks.
use pidprobe.Base.{
  ℕ, ◌≡◌, ◌≢◌, refl, String, Bool, true, false, not, ◌&&◌, Option, none, some, ◌=ₛ◌, ◌==◌,
  if◌then◌else◌, arith,
}
use pidprobe.Base.Decimal.{show}
use pidprobe.Base.Int.{ℤ, pos, ltb_ℤ, eqb_ℤ}
use pidprobe.Procinfo.{is_linux, is_macos, ptrace_scope, pid_namespace}
use pidprobe.Diagnosis.Check.{Status, is_empty, same_status, fail}
use pidprobe.Doctor.Policy.{
  Signal, signalled, lookup_error, refused, invalid, Prober, ptrace_advice, ptrace_scope_check,
  check_ptrace_scope, check_task_for_pid, signal_check, owner_check, namespace_check,
  check_pid_namespace,
}
use pidprobe.Doctor.Built.{
  Built, explained, unexplained, unless-Built, excused-Built, excused_else-Built, nonempty,
  nonempty_append,
}

-- Yama refuses from scope 2 on.
abbrev pub scope_blocks : Option ℤ → Bool
scope_blocks none = false
scope_blocks (some scope) = ltb_ℤ (pos 1) scope

abbrev pub signal_blocks : Signal → Bool
signal_blocks signalled = false
signal_blocks _ = true

-- The signal was sent, or refused with an `OSError`.
abbrev pub IsValid : Signal → Type 0
IsValid (invalid e) = ⊥
IsValid _ = Unit

-- Another user's process, unless the prober is root.
abbrev pub owner_blocks : ℕ → Option ℤ → Bool
owner_blocks euid none = false
owner_blocks euid (some uid) = not (eqb_ℤ uid (pos euid)) && not (euid == 0)

abbrev pub namespace_blocks : Option String → Option String → Bool
namespace_blocks (some own) (some theirs) = not (own =ₛ theirs)
namespace_blocks _ _ = false

abbrev Explains : Status × String × String → Type 0
Explains (status, cause, fix) = (cause ≢ "") × (fix ≢ "")

if-Explains :
    (b : Bool) (x y : Status × String × String)
    → Explains x
    → Explains y
    → Explains (if b then x else y)
if-Explains true x y h k = h
if-Explains false x y h k = k

advice_explained : (scope : ℤ) → Explains (ptrace_advice scope)
unfolding ptrace_advice
advice_explained scope =
    let told : (cause fix : String)
        → is_empty cause ≡ false
        → is_empty fix ≡ false
        → (cause ≢ "") × (fix ≢ "") =
      λ c f h k. (nonempty c h, nonempty f k) in
    if-Explains (eqb_ℤ scope (pos 1)) _ _ (told _ _ refl refl)
      (if-Explains (eqb_ℤ scope (pos 2)) _ _ (told _ _ refl refl) (told _ _ refl refl))

-- The kernel blocks above scope 1, as the advice has it.
scope_blocks-advice :
    (scope : ℤ)
    → scope_blocks (some scope) ≡ (ltb_ℤ (pos 0) scope && same_status (ptrace_advice scope).0 fail)
unfolding ptrace_advice
scope_blocks-advice scope = ground arith

module _ (p : Prober) where
  ptrace_scope_check-Built :
      (scope : Option ℤ) → Built "ptrace_scope" (scope_blocks scope) (ptrace_scope_check p scope)
  unfolding ptrace_scope_check
  ptrace_scope_check-Built none = unexplained p.repr _ refl
  ptrace_scope_check-Built (some scope) = rw (scope_blocks-advice scope) (
      unless-Built (ltb_ℤ (pos 0) scope) (unexplained p.repr _ refl) (
        explained p.repr _ (advice_explained scope).0 (nonempty _ refl) (advice_explained scope).1))

  pub check_ptrace_scope-Built :
      Built "ptrace_scope"
        (is_linux p.system && scope_blocks (ptrace_scope p.system))
        (check_ptrace_scope p)
  unfolding check_ptrace_scope
  check_ptrace_scope-Built =
      unless-Built (is_linux p.system) (unexplained p.repr _ refl)
        (ptrace_scope_check-Built (ptrace_scope p.system))

  pub check_task_for_pid-Built :
      Built "task_for_pid" (is_macos p.system && not (p.euid == 0)) (check_task_for_pid p)
  unfolding check_task_for_pid
  check_task_for_pid-Built = unless-Built (is_macos p.system) (unexplained p.repr _ refl) (
      excused_else-Built (p.euid == 0) (unexplained p.repr _ refl)
        (explained p.repr _ (nonempty _ refl) (nonempty _ refl) (nonempty _ refl)))

  pub signal_check-Built :
      (pid : ℕ) (signal : Signal)
      → IsValid signal
      → Built "target_process" (signal_blocks signal) (signal_check p pid signal)
  unfolding signal_check
  signal_check-Built pid signalled h = unexplained p.repr _ refl
  signal_check-Built pid lookup_error h =
      explained p.repr _ (nonempty _ refl) (nonempty_append _ _ refl) (nonempty _ refl)
  signal_check-Built pid (refused type_name message) h =
      explained p.repr _ (nonempty_append _ _ refl) (nonempty_append _ _ refl) (nonempty _ refl)
  signal_check-Built pid (invalid e) h = absurd h

  pub owner_check-Built :
      (pid : ℕ) (uid : Option ℤ)
      → Built "target_owner" (owner_blocks p.euid uid) (owner_check p pid uid)
  unfolding owner_check
  owner_check-Built pid none = unexplained p.repr _ refl
  owner_check-Built pid (some uid) =
      excused-Built (eqb_ℤ uid (pos p.euid)) (unexplained p.repr _ refl) (
        excused_else-Built (p.euid == 0) (unexplained p.repr _ refl) (
          explained p.repr _ (nonempty _ refl) (nonempty_append _ _ refl)
            (nonempty_append _ _ refl)))

  pub namespace_check-Built :
      (pid : ℕ) (own theirs : Option String)
      → Built "pid_namespace" (namespace_blocks own theirs) (namespace_check p pid own theirs)
  unfolding namespace_check
  namespace_check-Built pid (some own) (some theirs) =
      excused_else-Built (own =ₛ theirs) (unexplained p.repr _ refl)
        (explained p.repr _ (nonempty _ refl) (nonempty_append _ _ refl) (nonempty_append _ _ refl))
  namespace_check-Built pid (some own) none = unexplained p.repr _ refl
  namespace_check-Built pid none theirs = unexplained p.repr _ refl

  pub check_pid_namespace-Built :
      (pid : ℕ)
      → Built "pid_namespace"
          (is_linux p.system
            && namespace_blocks (pid_namespace p.system "self") (pid_namespace p.system (show pid)))
          (check_pid_namespace p pid)
  unfolding check_pid_namespace
  check_pid_namespace-Built pid = unless-Built (is_linux p.system) (unexplained p.repr _ refl) (
      namespace_check-Built pid (pid_namespace p.system "self") (pid_namespace p.system (show pid)))
