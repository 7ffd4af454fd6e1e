-- ===== src/Registry/Valid.antt =====
-- src/pidprobe/registry.py with src/pidprobe/collectors/_base.py: the names of what is available were checked.
use pidprobe.Base.{◌≡◌, refl, String, Bool-cases, inl, inr, List, [], ◌∷◌, All, All-append, arith}
use pidprobe.Base.Distinct.{has}
use pidprobe.Base.Sort.{sort}
use pidprobe.Errors.{Result, ok, raised, ◌>>=◌}
use pidprobe.Collectors.Contract.{
  Collector, names, Texts, IsSectionName, new_collector-IsSectionName,
}
use pidprobe.Collectors.Compose.{compose_collector_source}
use pidprobe.Registry.{
  EntryPoint, Published, accepted, as_collector, resolve, string_attribute, goes_before,
  available_collectors,
}
use pidprobe.Registry.Available.{
  Gives, Gives-map, IsContained, candidates, collector_of, discovered,
  available_collectors-IsAvailable,
}

All-accepted :
    (P : Collector → Type 0) (repr : String → String) (cs : List Collector) (taken : List String)
    → All P cs
    → All P (accepted repr cs taken).0
unfolding accepted
All-accepted P repr [] taken h = tt
All-accepted P repr (c ∷ cs) taken h = elim (Bool-cases (has c.name taken)) [
  | inl e ↦ rw e (All-accepted P repr cs taken h.1)
  | inr e ↦ rw e (h.0, All-accepted P repr cs (c.name ∷ taken) h.1)
]

module _ (t : Texts) (compiles : String → Result (Unit {0})) where
  abbrev pub HasSectionName : Collector → Type 0
  HasSectionName c = IsSectionName t c.name

  -- Any collector that comes of it has a name that was checked.
  data Checks (r : Result Collector) : Type 0 where
    checks : ((c : Collector) → r ≡ ok c → HasSectionName c) → Checks r

  then-Checks :
      {A : Type 0} {next : A → Result Collector} (r : Result A)
      → ((a : A) → r ≡ ok a → Checks (next a))
      → Checks (r >>= next)
  then-Checks (ok a) h = h a refl
  then-Checks (raised e) h = checks (λ c k. ground (arith, k))

  ok-Checks : (c : Collector) → HasSectionName c → Checks (ok c)
  ok-Checks c h = checks (λ d k. let same : d ≡ c = ground (arith, k) in rw same h)

  as_collector-Checks : (published : Published) → Checks (as_collector t compiles published)
  unfolding as_collector
  as_collector-Checks published = then-Checks (resolve t compiles published) (λ resolved u.
      then-Checks (string_attribute t compiles resolved "name") (λ name v.
        then-Checks (string_attribute t compiles resolved "source") (λ source w.
          then-Checks (string_attribute t compiles resolved "description") (λ description x.
            then-Checks _ (λ collector y.
              let (made, good) =
                new_collector-IsSectionName t name source description collector y in
              then-Checks (compose_collector_source t (collector ∷ [])) (λ composed z.
                then-Checks (compiles composed)
                  (λ compiled a. ok-Checks collector (rw made good))))))))

  collector_of-HasSectionName :
      (r : Result Collector) → Checks r → All HasSectionName (collector_of t compiles r)
  collector_of-HasSectionName (ok c) (checks h) = (h c refl, tt)
  collector_of-HasSectionName (raised e) h = tt

  candidates-HasSectionName :
      (points : List EntryPoint) → All HasSectionName (candidates t compiles points)
  candidates-HasSectionName [] = tt
  candidates-HasSectionName (point ∷ points) =
      All-append _ _ _
        (collector_of-HasSectionName (point.load >>= as_collector t compiles)
          (then-Checks point.load (λ published u. as_collector-Checks published)))
        (candidates-HasSectionName points)

  -- If the names of the built-in collectors were checked, then so were those of all that are available:
  -- each is an identifier, and none is reserved.
  pub available_collectors-HasSectionName :
      (builtin : List Collector) (points : List EntryPoint)
      → All HasSectionName builtin
      → All (IsContained t compiles) points
      → Gives
          (λ (cs, messages). All HasSectionName cs)
          (available_collectors t compiles builtin points)
  available_collectors-HasSectionName builtin points h contained =
      Gives-map (available_collectors-IsAvailable t compiles builtin points contained) (λ r u.
        let loading = candidates-HasSectionName (sort goes_before points) in
        let found = All-accepted HasSectionName t.repr _ [] loading in
        rw (u.0) (
          All-append _ builtin _ h (
            All-accepted HasSectionName t.repr (discovered t compiles points) (names builtin)
              found)))
