-- ===== src/Cli/Stdout.antt =====
-- src/pidprobe/cli.py: `_abandon_stdout`, which points stdout at the void, with the descriptors that it opens
-- and closes. What the system answers are arguments; closing does not fail.
use pidprobe.Base.{◌≡◌, refl, ℕ, List, [], ◌∷◌, if◌then◌else◌}
use pidprobe.Errors.{Result, ok, raised}
use pidprobe.Collectors.Fds.{is_skipped}

pub data Effect : Type 0 where
  devnull_opened : ℕ → Effect
  redirected : (devnull target : ℕ) → Effect
  closed : ℕ → Effect

-- `sys.stdout.fileno()`, `os.open(os.devnull, os.O_WRONLY)` and `os.dup2`
pub record Stdout : Type 0 where
  pub fileno : Result ℕ
  pub open_devnull : Result ℕ
  pub dup2 : (devnull target : ℕ) → Result (Unit {0})

abbrev pub Run : Type 0
Run = List Effect × Result (Unit {0})

-- The inner `try` statement.
redirect : (devnull target : ℕ) → Result (Unit {0}) → Run
redirect devnull target (ok u) =
    (devnull_opened devnull ∷ redirected devnull target ∷ closed devnull ∷ [], ok tt)
redirect devnull target (raised e) = (devnull_opened devnull ∷ closed devnull ∷ [], raised e)

module _ (s : Stdout) where
  with_target : ℕ → Result ℕ → Run
  unfolding redirect
  with_target target (raised e) = ([], raised e)
  with_target target (ok devnull) = redirect devnull target (s.dup2 devnull target)

  with_stdout : Result ℕ → Run
  unfolding with_target
  with_stdout (raised e) = ([], raised e)
  with_stdout (ok target) = with_target target s.open_devnull

  -- `contextlib.suppress(OSError, ValueError)`
  suppressed : Run → Run
  suppressed (effects, ok u) = (effects, ok u)
  suppressed (effects, raised e) = (effects, if is_skipped e then ok tt else raised e)

  unfoldable pub abandon_stdout : Run
  unfolding with_stdout suppressed
  abandon_stdout = suppressed (with_stdout s.fileno)

  -- Nothing was opened, or one descriptor, which was closed last.
  pub data IsTidy : List Effect → Type 0 where
    untouched : IsTidy []
    unchanged : (devnull : ℕ) → IsTidy (devnull_opened devnull ∷ closed devnull ∷ [])
    pointed :
        (devnull target : ℕ)
        → s.fileno ≡ ok target
        → IsTidy (devnull_opened devnull ∷ redirected devnull target ∷ closed devnull ∷ [])

  suppressed-IsTidy : (r : Run) → IsTidy r.0 → IsTidy (suppressed r).0
  unfolding suppressed
  suppressed-IsTidy (effects, ok u) h = h
  suppressed-IsTidy (effects, raised e) h = h

  redirect-IsTidy :
      (devnull target : ℕ) (r : Result (Unit {0}))
      → s.fileno ≡ ok target
      → IsTidy (redirect devnull target r).0
  unfolding redirect
  redirect-IsTidy devnull target (ok u) h = pointed devnull target h
  redirect-IsTidy devnull target (raised e) h = unchanged devnull

  with_target-IsTidy :
      (target : ℕ) (devnull : Result ℕ)
      → s.fileno ≡ ok target
      → IsTidy (with_target target devnull).0
  unfolding with_target
  with_target-IsTidy target (raised e) h = untouched
  with_target-IsTidy target (ok devnull) h =
      redirect-IsTidy devnull target (s.dup2 devnull target) h

  with_stdout-IsTidy : (target : Result ℕ) → s.fileno ≡ target → IsTidy (with_stdout target).0
  unfolding with_stdout
  with_stdout-IsTidy (raised e) h = untouched
  with_stdout-IsTidy (ok target) h = with_target-IsTidy target s.open_devnull h

  -- However it ends, the only descriptor that was opened is closed again, and nothing is redirected but
  -- what stdout stands on.
  pub abandon_stdout-IsTidy : IsTidy abandon_stdout.0
  unfolding abandon_stdout
  abandon_stdout-IsTidy =
      suppressed-IsTidy (with_stdout s.fileno) (with_stdout-IsTidy s.fileno refl)
