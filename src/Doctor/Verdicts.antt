-- ===== src/Doctor/Verdicts.antt =====
-- src/pidprobe/_doctor.py: `diagnose` answers on every system, each check with its verdict.
use pidprobe.Base.{
  ℕ, ◌≡◌, ◌≢◌, ◌↔◌, refl, String, Bool, true, false, ◌&&◌, Option, none, some, List, [], ◌∷◌, ◌++◌,
  All, arith,
}
use pidprobe.Base.Decimal.{show}
use pidprobe.Base.Int.{ℤ}
use pidprobe.Errors.{Result, ok, raised, ◌>>=◌}
use pidprobe.Procinfo.{is_linux, process_uid, pid_namespace}
use pidprobe.Procinfo.Environ.{process_environ}
use pidprobe.Procinfo.Interpreter.{Interpreter, target_interpreter}
use pidprobe.Diagnosis.Check.{fail, Check, Diagnosis, is_attachable}
use pidprobe.Diagnosis.Laws.{is_attachable_iff}
use pidprobe.Doctor.Policy.{
  Signal, signalled, lookup_error, refused, invalid, signal_check, owner_check,
  check_target_process, check_target_owner,
}
use pidprobe.Doctor.Prober.{Environment}
use pidprobe.Doctor.Python.{interpreter_checks, check_target_python}
use pidprobe.Doctor.Diagnose.{target_checks, diagnose}
use pidprobe.Doctor.Built.{
  Built, AllBuilt, all_built, Verdicts, nil, cons, Verdicts-append, then-Built, then-AllBuilt,
}
use pidprobe.Doctor.PolicyVerdicts.{
  signal_blocks, IsValid, owner_blocks, namespace_blocks, signal_check-Built, owner_check-Built,
  check_pid_namespace-Built,
}
use pidprobe.Doctor.ProberVerdicts.{environment_verdicts, environment_checks-AllBuilt}
use pidprobe.Doctor.PythonVerdicts.{
  environ_blocks, python_blocks, check_target_remote_debug-Built, interpreter_checks-Built,
}

-- What is answered, where no exception is raised.
abbrev pub IsAnswered : {A : Type 0} → Result A → Type 0
IsAnswered (ok a) = Unit
IsAnswered (raised x) = ⊥

abbrev pub answer_or : {A : Type 0} → A → Result A → A
answer_or default (ok a) = a
answer_or default (raised x) = default

-- In place of an interpreter that is not asked for.
abbrev pub unknown : Interpreter
unknown = record { executable = none; implementation = none; version = none; reason = none }

module _ (e : Environment) where
  abbrev pub target_verdicts : ℕ → List (String × Bool)
  target_verdicts pid =
      let s = e.prober.system in
      let interpreter = answer_or unknown (target_interpreter s pid) in
      (("target_process", signal_blocks (e.prober.kill pid))
        ∷ ("target_owner", owner_blocks e.prober.euid (answer_or none (process_uid s pid)))
        ∷ (
          "pid_namespace",
          is_linux s && namespace_blocks (pid_namespace s "self") (pid_namespace s (show pid)),
        )
        ∷ python_blocks e.runtime interpreter interpreter.version)
      ++ (("target_remote_debug", is_linux s && environ_blocks (process_environ s pid)) ∷ [])

  owner-Built :
      (pid : ℕ) (uid : Result (Option ℤ))
      → IsAnswered uid
      → Built "target_owner"
          (owner_blocks e.prober.euid (answer_or none uid))
          (uid >>= owner_check e.prober pid)
  owner-Built pid (ok uid) h = owner_check-Built e.prober pid uid
  owner-Built pid (raised x) h = absurd h

  python-AllBuilt :
      (pid : ℕ) (found : Result Interpreter)
      → IsAnswered found
      → AllBuilt
          (python_blocks e.runtime (answer_or unknown found) (answer_or unknown found).version)
          (found >>= λ i. interpreter_checks e.prober e.runtime pid i i.version)
  python-AllBuilt pid (ok i) h = interpreter_checks-Built e.prober e.runtime pid i i.version
  python-AllBuilt pid (raised x) h = absurd h

  -- The target's pid is one that `os.kill` can take, and what is asked of the target's owner and of its
  -- interpreter is answered: the output of the programs that are run for it can be decoded.
  abbrev pub IsCheckable : ℕ → Type 0
  IsCheckable pid =
      IsValid (e.prober.kill pid)
      × IsAnswered (process_uid e.prober.system pid)
      × IsAnswered (target_interpreter e.prober.system pid)

  target_checks-AllBuilt :
      (pid : ℕ) → IsCheckable pid → AllBuilt (target_verdicts pid) (target_checks e pid)
  unfolding target_checks check_target_process check_target_owner check_target_python
  target_checks-AllBuilt pid (valid, owned, answered) =
      let s = e.prober.system in
      then-Built (AllBuilt _) (signal_check-Built e.prober pid (e.prober.kill pid) valid) (λ c u.
        then-Built (AllBuilt _) (owner-Built pid (process_uid s pid) owned) (λ d v.
          then-Built (AllBuilt _) (check_pid_namespace-Built e.prober pid) (λ f w.
            then-AllBuilt (AllBuilt _) (python-AllBuilt pid (target_interpreter s pid) answered)
              (λ cs x.
                then-Built (AllBuilt _) (check_target_remote_debug-Built e.prober pid) (λ g y.
                  all_built _ (Verdicts-append (cons u (cons v (cons w x))) (cons y nil)))))))

  abbrev pub verdicts : Option ℕ → List (String × Bool)
  verdicts none = environment_verdicts e
  verdicts (some pid) = environment_verdicts e ++ target_verdicts pid

  -- The target, if there is one, can be checked.
  abbrev pub HasCheckable : Option ℕ → Type 0
  HasCheckable none = Unit
  HasCheckable (some pid) = IsCheckable pid

  pub diagnose_total :
      (pid : Option ℕ)
      → All (λ m. m ≢ "") e.messages
      → HasCheckable pid
      → (checks : List Check) × (diagnose e pid ≡ ok (record { pid = pid; checks = checks }))
        × Verdicts (verdicts pid) checks
  unfolding diagnose
  diagnose_total none h valid =
      then-AllBuilt
        (λ r.
          (checks : List Check) × (r ≡ ok (record { pid = none; checks = checks }))
          × Verdicts (verdicts none) checks)
        (environment_checks-AllBuilt e h) (λ cs v. (cs, refl, v))
  diagnose_total (some pid) h valid =
      then-AllBuilt
        (λ r.
          (checks : List Check) × (r ≡ ok (record { pid = some pid; checks = checks }))
          × Verdicts (verdicts (some pid)) checks)
        (environment_checks-AllBuilt e h)
        (λ cs v.
          then-AllBuilt
            (λ r.
              (checks : List Check) × (r ≡ ok (record { pid = some pid; checks = checks }))
              × Verdicts (verdicts (some pid)) checks)
            (target_checks-AllBuilt pid valid) (λ ds w. (cs ++ ds, refl, Verdicts-append v w)))

-- Nothing on the list blocks.
abbrev pub NoneBlock : List (String × Bool) → Type 0
NoneBlock = All (λ (name, blocks). blocks ≡ false)

Verdicts-NoneFailed :
    {vs : List (String × Bool)} {checks : List Check}
    → Verdicts vs checks
    → All (λ check. check.status ≢ fail) checks ↔ NoneBlock vs
Verdicts-NoneFailed nil = (λ h. tt, λ h. tt)
Verdicts-NoneFailed (cons {check = check} v rest) = ground (arith, v, Verdicts-NoneFailed rest)

first_of :
    {A B : Type 0} (r : Result A) (f : A → Result B) {b : B}
    → (r >>= f) ≡ ok b
    → (a : A) × (r ≡ ok a)
first_of (ok a) f h = (a, refl)
first_of (raised x) f h = cc

ok-IsAnswered : {A : Type 0} (r : Result A) {a : A} → r ≡ ok a → IsAnswered r
ok-IsAnswered (ok a) h = tt
ok-IsAnswered (raised x) h = cc

signal_check-IsValid :
    (e : Environment) (pid : ℕ) (signal : Signal) {check : Check}
    → signal_check e.prober pid signal ≡ ok check
    → IsValid signal
unfolding signal_check
signal_check-IsValid e pid signalled h = tt
signal_check-IsValid e pid lookup_error h = tt
signal_check-IsValid e pid (refused type_name message) h = tt
signal_check-IsValid e pid (invalid x) h = cc

target_checks-IsCheckable :
    (e : Environment) (pid : ℕ) {checks : List Check}
    → target_checks e pid ≡ ok checks
    → IsCheckable e pid
unfolding target_checks check_target_process check_target_owner check_target_python
target_checks-IsCheckable e pid {checks} r =
    let s = e.prober.system in
    let valid =
      signal_check-IsValid e pid (e.prober.kill pid)
        (first_of (signal_check e.prober pid (e.prober.kill pid)) _ r).1 in
    then-Built (λ found. found ≡ ok checks → IsCheckable e pid)
      (signal_check-Built e.prober pid (e.prober.kill pid) valid)
      (λ c u after.
        let (uid, owned) =
          first_of (process_uid s pid) _
            (first_of (process_uid s pid >>= owner_check e.prober pid) _ after).1 in
        let owner_known = ok-IsAnswered (process_uid s pid) owned in
        then-Built (λ found. found ≡ ok checks → IsCheckable e pid)
          (owner-Built e pid (process_uid s pid) owner_known)
          (λ d v.
            then-Built (λ found. found ≡ ok checks → IsCheckable e pid)
              (check_pid_namespace-Built e.prober pid)
              (λ f w last.
                let (i, known) =
                  first_of (target_interpreter s pid) _
                    (first_of
                      (target_interpreter s pid >>= λ i.
                        interpreter_checks e.prober e.runtime pid i i.version)
                      _ last).1 in
                (valid, owner_known, ok-IsAnswered (target_interpreter s pid) known)))
          after)
      r

-- A diagnosis that is made had a target that could be checked.
made-HasCheckable :
    (e : Environment) (pid : Option ℕ) (d : Diagnosis)
    → All (λ m. m ≢ "") e.messages
    → diagnose e pid ≡ ok d
    → HasCheckable e pid
unfolding diagnose
made-HasCheckable e none d h r = tt
made-HasCheckable e (some pid) d h r =
    then-AllBuilt (λ found. found ≡ ok d → IsCheckable e pid) (environment_checks-AllBuilt e h)
      (λ cs v made. target_checks-IsCheckable e pid (first_of (target_checks e pid) _ made).1) r

-- If no message of the discovery is empty, a diagnosis that is made says that a target is attachable exactly if none of the
-- conditions under which its checks fail holds.
pub diagnose-is_attachable :
    (e : Environment) (pid : Option ℕ) (d : Diagnosis)
    → All (λ m. m ≢ "") e.messages
    → diagnose e pid ≡ ok d
    → (is_attachable d ≡ true) ↔ NoneBlock (verdicts e pid)
diagnose-is_attachable e pid d h r =
    let (checks, made, v) = diagnose_total e pid h (made-HasCheckable e pid d h r) in
    let same : d ≡ record { pid = pid; checks = checks } = cc in
    let failed = Verdicts-NoneFailed v in
    let attach = is_attachable_iff (record { pid = pid; checks = checks }) in
    rw same (λ a. failed.0 (attach.0 a), λ n. attach.1 (failed.1 n))
