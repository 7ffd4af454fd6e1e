-- ===== src/Registry/Available.antt =====
-- src/pidprobe/registry.py with src/pidprobe/collectors/_base.py: the collectors of a snapshot can be put
-- together, whatever packages publish.
use pidprobe.Base.{
  ◌≡◌, ◌≢◌, inl, inr, refl, ◌∙◌, ap, String, true, Bool-cases, Option, none, some, List, [], ◌∷◌,
  ◌++◌, All, All-append, arith,
}
use pidprobe.Base.Distinct.{has}
use pidprobe.Base.Sort.{sort, All-sort}
use mathlib.Core.Path.{ap₂}
use pidprobe.Errors.{Exception, Result, ok, raised, ◌>>=◌}
use pidprobe.Collectors.Contract.{Collector, names, Texts}
use pidprobe.Registry.{
  EntryPoint, Logged, accepted, as_collector, keep, loaded, is_exception, load, load_all,
  goes_before, discover_collectors, available_collectors,
}
use pidprobe.Doctor.Built.{nonempty_append}

-- The code returned, and what it returned is as it should be.
pub data Gives {A : Type 0} (P : A → Type 0) : Result A → Type 0 where
  gives : (a : A) → P a → Gives P (ok a)

pub given : {A : Type 0} {P : A → Type 0} {r : Result A} (a : A) → Gives P r → r ≡ ok a → P a
given a (gives b h) e = let same : b ≡ a = ground (arith, e) in rw⁻¹ same h

pub Gives-map :
    {A : Type 0} {P Q : A → Type 0} {r : Result A} → Gives P r → ((a : A) → P a → Q a) → Gives Q r
Gives-map (gives a h) f = gives a (f a h)

then-Gives :
    {A B : Type 0} {P : A → Type 0} {r : Result A} {next : A → Result B} (Q : Result B → Type 0)
    → Gives P r
    → ((a : A) → P a → Q (next a))
    → Q (r >>= next)
then-Gives Q (gives a h) f = f a h

module _ (t : Texts) (compiles : String → Result (Unit {0})) where
  -- Whatever `Exception` a plugin raises, it is taken care of.
  abbrev pub IsContained : EntryPoint → Type 0
  IsContained point =
      (e : Exception) → (point.load >>= as_collector t compiles) ≡ raised e → is_exception e ≡ true

  -- The collector of a plugin that loads.
  abbrev pub collector_of : Result Collector → List Collector
  collector_of (ok c) = c ∷ []
  collector_of (raised e) = []

  -- The collectors of the plugins that load, in the order of the plugins.
  abbrev pub candidates : List EntryPoint → List Collector
  candidates [] = []
  candidates (point ∷ points) =
      collector_of (point.load >>= as_collector t compiles) ++ candidates points

  -- Nothing that is logged is empty.
  abbrev pub AllSpeak : List String → Type 0
  AllSpeak = All (λ m. m ≢ "")

  -- What loading a plugin comes to, for what its collector comes to.
  abbrev LoadsAs : Result Collector → Logged (Option Collector) → Type 0
  LoadsAs r l = (keep t compiles l.0 [] ≡ collector_of r) × AllSpeak l.1

  loaded-LoadsAs :
      (point : EntryPoint) (r : Result Collector)
      → ((e : Exception) → r ≡ raised e → is_exception e ≡ true)
      → Gives (LoadsAs r) (loaded t compiles point r)
  unfolding loaded keep
  loaded-LoadsAs point (ok c) h = gives _ (refl, tt)
  loaded-LoadsAs point (raised e) h =
      rw (h e refl) (gives _ (refl, (nonempty_append "skipping collector plugin " _ refl, tt)))

  keep-append :
      (o : Option Collector) (cs : List Collector)
      → keep t compiles o cs ≡ keep t compiles o [] ++ cs
  unfolding keep
  keep-append none cs = refl
  keep-append (some c) cs = refl

  load_all-candidates :
      (points : List EntryPoint)
      → All IsContained points
      → Gives (λ r. (r.0 ≡ candidates points) × AllSpeak r.1) (load_all t compiles points)
  unfolding load_all load
  load_all-candidates [] h = gives _ (refl, tt)
  load_all-candidates (point ∷ points) h =
      then-Gives (Gives _) (loaded-LoadsAs point _ h.0) (λ first u.
        then-Gives (Gives _) (load_all-candidates points h.1) (λ rest v.
          gives _
            (keep-append first.0 rest.0 ∙ ap₂ (◌++◌) u.0 v.0, All-append _ first.1 rest.1 u.1 v.1)))

  accepted-AllSpeak :
      (cs : List Collector) (taken : List String) → AllSpeak (accepted t.repr cs taken).1
  unfolding accepted
  accepted-AllSpeak [] taken = tt
  accepted-AllSpeak (c ∷ cs) taken = elim (Bool-cases (has c.name taken)) [
    | inl e ↦ rw e (nonempty_append "skipping collector plugin " _ refl, accepted-AllSpeak cs taken)
    | inr e ↦ rw e (accepted-AllSpeak cs (c.name ∷ taken))
  ]

  -- What discovery finds: those of the candidates, by the names of their entry points, whose own
  -- names are free.
  abbrev pub discovered : List EntryPoint → List Collector
  discovered points = (accepted t.repr (candidates (sort goes_before points)) []).0

  pub discover_collectors-discovered :
      (points : List EntryPoint)
      → All IsContained points
      → Gives
          (λ r. (r.0 ≡ discovered points) × AllSpeak r.1)
          (discover_collectors t compiles points)
  unfolding discover_collectors
  discover_collectors-discovered points h =
      let all = All-sort goes_before IsContained points h in
      then-Gives (Gives _) (load_all-candidates _ all) (λ r u. gives _ (
        ap (λ cs. (accepted t.repr cs []).0) u.0,
        All-append _ r.1 _ u.1 (accepted-AllSpeak r.0 []),
      ))

  -- What is available: the built-in collectors, then those discovered whose names no built-in has.
  abbrev pub IsAvailable : List Collector → List EntryPoint → List Collector → Type 0
  IsAvailable builtin points cs =
      cs ≡ builtin ++ (accepted t.repr (discovered points) (names builtin)).0

  pub available_collectors-IsAvailable :
      (builtin : List Collector) (points : List EntryPoint)
      → All IsContained points
      → Gives
          (λ r. IsAvailable builtin points r.0 × AllSpeak r.1)
          (available_collectors t compiles builtin points)
  unfolding available_collectors
  available_collectors-IsAvailable builtin points h =
      then-Gives (Gives _) (discover_collectors-discovered points h) (λ r u. gives _ (
        ap (λ cs. builtin ++ (accepted t.repr cs (names builtin)).0) u.0,
        All-append _ r.1 _ u.1 (accepted-AllSpeak r.0 (names builtin)),
      ))
