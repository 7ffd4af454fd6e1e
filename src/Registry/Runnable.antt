-- ===== src/Registry/Runnable.antt =====
-- src/pidprobe/registry.py with src/pidprobe/collectors/_base.py: whatever packages publish, what is
-- available can be put together, and does not depend on the order of installation.
use pidprobe.Base.{
  ◌≡◌, ◌≢◌, ◌↔◌, ◌⊎◌, refl, String, true, false, some, List, [], ◌∷◌, ◌++◌, All, In, In-append,
  eq_iff, arith,
}
use pidprobe.Base.Distinct.{has, AllDistinct}
use pidprobe.Base.Sort.{sort, NoTies, Reordered, sort-Reordered}
use pidprobe.Base.Text
use pidprobe.Errors.{Result, ok}
use pidprobe.Collectors.Contract.{Collector, names, Texts}
use pidprobe.Collectors.Compose.{parts, compose_collector_source, compose_collector_source_iff}
use pidprobe.Registry.{
  EntryPoint, Logged, accepted, goes_before, discover_collectors, available_collectors,
}
use pidprobe.Registry.Names.{at_most-total, at_most_trans, at_most_antisymm}
use pidprobe.Registry.Accepted.{apart, first_claim, accepted_iff, accepted-AllDistinct}
use pidprobe.Registry.Available.{
  Gives, Gives-map, IsContained, candidates, discovered, available_collectors-IsAvailable,
}

abbrev pub point_names : List EntryPoint → List String
point_names [] = []
point_names (point ∷ points) = point.name ∷ point_names points

first_claim-accepted :
    (repr : String → String) (cs : List Collector) (taken : List String) (name : String)
    → has name taken ≡ false
    → first_claim name (accepted repr cs taken).0 ≡ first_claim name cs
unfolding accepted has
first_claim-accepted repr [] taken name h = refl
first_claim-accepted repr (c ∷ cs) taken name h = ground (
  arith,
  eq_iff c.name name,
  first_claim-accepted repr cs taken name,
  first_claim-accepted repr cs (c.name ∷ taken) name,
)

nonempty_append : (xs ys : List Collector) → xs ≢ [] → xs ++ ys ≢ []
nonempty_append [] ys h e = h refl
nonempty_append (x ∷ xs) ys h e = ground (arith, e)

has-append :
    (name : String) (xs ys : List Collector)
    → has name (names xs) ≡ false
    → has name (names ys) ≡ false
    → has name (names (xs ++ ys)) ≡ false
unfolding has
has-append name [] ys h k = k
has-append name (x ∷ xs) ys h k = ground (arith, has-append name xs ys)

AllDistinct-append :
    (xs ys : List Collector)
    → AllDistinct (names xs)
    → AllDistinct (names ys)
    → All (λ d. has d.name (names xs) ≡ false) ys
    → AllDistinct (names (xs ++ ys))
AllDistinct-append [] ys h k l = k
AllDistinct-append (x ∷ xs) ys h k l =
    let (other, free) = apart x.name (names xs) ys l in
    (has-append x.name xs ys h.0 other, AllDistinct-append xs ys h.1 k free)

goes_before-total : (x y : EntryPoint) → goes_before x y ≡ false → goes_before y x ≡ true
unfolding goes_before
goes_before-total x y h = at_most-total x.name y.name h

goes_before_trans :
    (x y z : EntryPoint) → goes_before x y ≡ true → goes_before y z ≡ true → goes_before x z ≡ true
unfolding goes_before
goes_before_trans x y z h k = at_most_trans x.name y.name z.name h k

no_tie :
    (point : EntryPoint) (points : List EntryPoint)
    → has point.name (point_names points) ≡ false
    → All
        (λ other. goes_before point other ≡ true → goes_before other point ≡ true → point ≡ other)
        points
unfolding has goes_before
no_tie point [] h = tt
no_tie point (other ∷ points) h = (
  (λ a b. ground (arith, eq_iff other.name point.name, at_most_antisymm point.name other.name a b)),
  no_tie point points (ground arith),
)

AllDistinct-NoTies :
    (points : List EntryPoint) → AllDistinct (point_names points) → NoTies goes_before points
AllDistinct-NoTies [] h = tt
AllDistinct-NoTies (point ∷ points) h = (no_tie point points h.0, AllDistinct-NoTies points h.1)

module _ (t : Texts) (compiles : String → Result (Unit {0})) where
  -- If the entry points have distinct names, discovery comes to the same in whatever order they are
  -- installed: the same collectors in the same order, the same messages, or the same exception.
  pub discover_collectors-Reordered :
      (points others : List EntryPoint)
      → AllDistinct (point_names points)
      → Reordered points others
      → discover_collectors t compiles points ≡ discover_collectors t compiles others
  unfolding discover_collectors
  discover_collectors-Reordered points others h r =
      rw
        (sort-Reordered goes_before goes_before-total goes_before_trans r
          (AllDistinct-NoTies points h))
        refl

  -- The built-in collectors, and of the plugins that load, by the names of their entry points, the first to
  -- claim each other name.
  abbrev pub AreFirstClaims : List Collector → List EntryPoint → Logged (List Collector) → Type 0
  AreFirstClaims builtin points (cs, messages) =
      (c : Collector)
      → In c cs ↔ (
          In c builtin
          ⊎ ((first_claim c.name (candidates t compiles (sort goes_before points)) ≡ some c)
              × (has c.name (names builtin) ≡ false)))

  module _ (builtin : List Collector) (points : List EntryPoint)
      (contained : All (IsContained t compiles) points) where
    -- If the plugins raise nothing but `Exception`s, the discovery ends, and a collector is available
    -- exactly if it is built in, or its name is no built-in's and it is the first to claim it of the
    -- plugins that load, by the names of their entry points.
    pub available_collectors_iff :
        Gives (AreFirstClaims builtin points) (available_collectors t compiles builtin points)
    unfolding has
    available_collectors_iff =
        Gives-map (available_collectors-IsAvailable t compiles builtin points contained) (λ r u c.
          let candidates = candidates t compiles (sort goes_before points) in
          let found = accepted_iff t.repr (discovered t compiles points) (names builtin) c in
          let first = first_claim-accepted t.repr candidates [] c.name refl in
          rw (u.0) (
            ground (
              arith,
              In-append c builtin
                  (accepted t.repr (discovered t compiles points) (names builtin)).0,
              found,
              first,
            )))

    -- If the built-in collectors have distinct names and there is any, then what is available can be
    -- put together, whatever the plugins are.
    pub available_collectors-compose :
        builtin ≢ []
        → AllDistinct (names builtin)
        → Gives
            (λ (cs, messages). compose_collector_source t cs ≡ ok (Text.join "\n" (parts t cs)))
            (available_collectors t compiles builtin points)
    available_collectors-compose some_builtin distinct_builtin =
        Gives-map (available_collectors-IsAvailable t compiles builtin points contained) (λ r u.
          let (unique, free) =
            accepted-AllDistinct t.repr (discovered t compiles points) (names builtin) in
          (compose_collector_source_iff t r.0).1 (
            rw (u.0) (
              nonempty_append builtin _ some_builtin,
              AllDistinct-append builtin _ distinct_builtin unique free,
            )))
