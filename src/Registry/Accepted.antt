-- ===== src/Registry/Accepted.antt =====
-- src/pidprobe/registry.py: who gets a section name, of the collectors that claim it.
use pidprobe.Base.{
  ◌≡◌, ◌↔◌, inl, inr, refl, String, false, Bool-cases, Option, none, some, List, [], ◌∷◌, All, In,
  ◌+◌, length, ◌=ₛ◌, eq_iff, if◌then◌else◌, arith,
}
use pidprobe.Base.Distinct.{has, AllDistinct}
use pidprobe.Collectors.Contract.{Collector, names}
use pidprobe.Registry.{accepted}

-- The first collector of a name.
abbrev pub first_claim : String → List Collector → Option Collector
first_claim name [] = none
first_claim name (c ∷ cs) = if c.name =ₛ name then some c else first_claim name cs

-- Collectors whose names are free beside a name do not have that name.
pub apart :
    (name : String) (taken : List String) (cs : List Collector)
    → All (λ c. has c.name (name ∷ taken) ≡ false) cs
    → (has name (names cs) ≡ false) × All (λ c. has c.name taken ≡ false) cs
unfolding has
apart name taken [] h = (refl, tt)
apart name taken (c ∷ cs) h =
    ground (arith, eq_iff name c.name, eq_iff c.name name, apart name taken cs h.1)

module _ (repr : String → String) where
  -- A collector is accepted exactly if it is the first that claims its name, and the name was not
  -- taken before.
  pub accepted_iff :
      (cs : List Collector) (taken : List String) (c : Collector)
      → In c (accepted repr cs taken).0
        ↔ ((first_claim c.name cs ≡ some c) × (has c.name taken ≡ false))
  unfolding accepted has
  accepted_iff [] taken c = ground arith
  accepted_iff (d ∷ cs) taken c =
      ground
        (arith, eq_iff d.name c.name, accepted_iff cs taken c, accepted_iff cs (d.name ∷ taken) c)

  -- Whoever is accepted has a name that was free, and no two have the same.
  pub accepted-AllDistinct :
      (cs : List Collector) (taken : List String)
      → AllDistinct (names (accepted repr cs taken).0)
        × All (λ c. has c.name taken ≡ false) (accepted repr cs taken).0
  unfolding accepted
  accepted-AllDistinct [] taken = (tt, tt)
  accepted-AllDistinct (d ∷ cs) taken = elim (Bool-cases (has d.name taken)) [
    | inl e ↦ rw e (accepted-AllDistinct cs taken)
    | inr e ↦
        let (unique, free) = accepted-AllDistinct cs (d.name ∷ taken) in
        let (other, free) = apart d.name taken (accepted repr cs (d.name ∷ taken)).0 free in
        rw e ((other, unique), (e, free))
  ]

  -- Every candidate is accepted or logged.
  pub accepted-length :
      (cs : List Collector) (taken : List String)
      → length (accepted repr cs taken).0 + length (accepted repr cs taken).1 ≡ length cs
  unfolding accepted
  accepted-length [] taken = omega arith
  accepted-length (d ∷ cs) taken =
      ground (arith, accepted-length cs taken, accepted-length cs (d.name ∷ taken))
