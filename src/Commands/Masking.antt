-- ===== src/Commands/Masking.antt =====
-- src/pidprobe/_commands.py: without masking, a snapshot runs the same sections.
use pidprobe.Base.{
  ◌≡◌, ◌≢◌, refl, ap, String, Bool-cases, inl, inr, List, [], ◌∷◌, All, eq_iff, ◌=ₛ◌, arith,
}
use pidprobe.Base.Distinct.{has, AllDistinct}
use pidprobe.Base.Text
use pidprobe.Errors.{Result, ok}
use pidprobe.Collectors.Contract.{Collector, names, Texts}
use pidprobe.Collectors.Compose.{parts, compose_collector_source, compose_collector_source_iff}
use pidprobe.Registry.{EntryPoint, Logged, available_collectors}
use pidprobe.Registry.Available.{Gives, Gives-map, IsContained}
use pidprobe.Registry.Runnable.{available_collectors-compose}
use pidprobe.Commands.{build_stacks_collector, Sources, builtin_collectors, unmasked_collectors}

module _ (sources : Sources) where
  names-unmasked_collectors :
      (cs : List Collector) → names (unmasked_collectors sources cs) ≡ names cs
  unfolding unmasked_collectors build_stacks_collector
  names-unmasked_collectors [] = refl
  names-unmasked_collectors (c ∷ cs) = elim (Bool-cases (c.name =ₛ "stacks")) [
    | inl e ↦
        let named = (eq_iff c.name "stacks").0 e in
        rw (e, named) (ap (λ ns. "stacks" ∷ ns) (names-unmasked_collectors cs))
    | inr e ↦ rw e (ap (λ ns. c.name ∷ ns) (names-unmasked_collectors cs))
  ]

  pub distinct_builtin : AllDistinct (names (builtin_collectors sources))
  unfolding builtin_collectors build_stacks_collector has
  distinct_builtin = (refl, (refl, (refl, (refl, tt))))

  pub some_builtin : builtin_collectors sources ≢ []
  unfolding builtin_collectors
  some_builtin h = ground (arith, h)

  unmasked-nonempty : (cs : List Collector) → cs ≢ [] → unmasked_collectors sources cs ≢ []
  unfolding unmasked_collectors
  unmasked-nonempty [] h e = h refl
  unmasked-nonempty (c ∷ cs) h e = ground (arith, e)

  -- The collectors and what they are without masking can be put together, and have the same names.
  abbrev pub IsRunnable : Texts → Logged (List Collector) → Type 0
  IsRunnable t (cs, messages) =
      (compose_collector_source t cs ≡ ok (Text.join "\n" (parts t cs)))
      × (compose_collector_source t (unmasked_collectors sources cs)
          ≡ ok (Text.join "\n" (parts t (unmasked_collectors sources cs))))
      × (names (unmasked_collectors sources cs) ≡ names cs)

  -- Whatever plugins are installed, if they raise nothing but `Exception`s then a snapshot of all that is
  -- available can be put together, with masking and without, and both have the same sections in the
  -- same order.
  pub unmasked_collectors-compose :
      (t : Texts) (compiles : String → Result (Unit {0})) (points : List EntryPoint)
      → All (IsContained t compiles) points
      → Gives (IsRunnable t) (available_collectors t compiles (builtin_collectors sources) points)
  unmasked_collectors-compose t compiles points h =
      Gives-map
        (available_collectors-compose t compiles (builtin_collectors sources) points h some_builtin
          distinct_builtin)
        (λ r composed.
          let (some_, unique) = (compose_collector_source_iff t r.0).0 composed in
          (
            composed,
            (compose_collector_source_iff t (unmasked_collectors sources r.0)).1
                (unmasked-nonempty r.0 some_, rw (names-unmasked_collectors r.0) unique),
            names-unmasked_collectors r.0,
          ))
