-- ===== src/Collectors/Fds/Listing.antt =====
-- src/pidprobe/collectors/_fds.py: the entries that can be described are listed, the others left out.
use pidprobe.Base.{
  ◌≡◌, ◌↔◌, refl, sym, String, true, false, some, List, [], ◌∷◌, ◌++◌, length, In, All, leb, arith,
}
use pidprobe.Base.Sort.{sort, In-sort, length-sort, IsSorted, sort-IsSorted}
use pidprobe.Errors.{Result, ok, raised}
use pidprobe.Collectors.Fds.{
  System, Run, Entry, Fds, is_skipped, describe, listed, listing, goes_before, collected,
  fd_directory, collect_fds,
}

module _ {F : Type 0} (s : System F) where
  -- What a description that fails is allowed to raise.
  abbrev pub Skips : Result (Entry F) → Type 0
  Skips (ok entry) = Unit
  Skips (raised e) = is_skipped e ≡ true

  abbrev pub entries_of : Result (Entry F) → List (Entry F)
  entries_of (ok entry) = entry ∷ []
  entries_of (raised e) = []

  -- The entries of the names that can be described.
  abbrev pub found : (directory : String) → List String → List (Entry F)
  found directory [] = []
  found directory (name ∷ names) = entries_of (describe s directory name).1 ++ found directory names

  listed-found :
      (x : Run (Entry F)) (rest : Run (List (Entry F))) (entries : List (Entry F))
      → Skips x.1
      → rest.1 ≡ ok entries
      → (listed s x rest).1 ≡ ok (entries_of x.1 ++ entries)
  unfolding listed
  listed-found (effects, ok entry) rest entries h k = rw k refl
  listed-found (effects, raised e) rest entries h k = rw h k

  listing-found :
      (directory : String) (names : List String)
      → All (λ name. Skips (describe s directory name).1) names
      → (listing s directory names).1 ≡ ok (found directory names)
  unfolding listing
  listing-found directory [] h = refl
  listing-found directory (name ∷ names) h =
      listed-found (describe s directory name) (listing s directory names) (found directory names)
        h.0 (listing-found directory names h.1)

  goes_before-total : (x y : Entry F) → goes_before s x y ≡ false → goes_before s y x ≡ true
  unfolding goes_before
  goes_before-total x y h = ground arith

  -- What the collector gives for a directory: exactly the entries that can be described, by number.
  abbrev pub IsListing : (directory : String) → List String → Fds F → Type 0
  IsListing directory names fds =
      (fds.supported ≡ true)
      × (fds.source ≡ some directory)
      × (fds.count ≡ length fds.descriptors)
      × IsSorted (λ x y. leb x.fd y.fd) fds.descriptors
      × ((entry : Entry F) → In entry fds.descriptors ↔ In entry (found directory names))

  -- If there is a directory of descriptors that can be listed, and describing a name in it raises nothing
  -- but ValueErrors and OSErrors, then the collector ends with the entries of the names that it can
  -- describe, and no others, counted and by their numbers.
  pub collect_fds_total :
      (directory : String) (names : List String)
      → fd_directory s ≡ some directory
      → s.listdir directory ≡ ok names
      → All (λ name. Skips (describe s directory name).1) names
      → (fds : Fds F) × ((collect_fds s).1 ≡ ok fds) × IsListing directory names fds
  unfolding collect_fds collected goes_before
  collect_fds_total directory names d l h =
      let entries = found directory names in
      (
        record {
          supported = true;
          source = some directory;
          count = length entries;
          descriptors = sort (goes_before s) entries;
        },
        rw (d, collect_fds) (rw (l, collected) (rw (listing-found directory names h) refl)),
        (
          refl,
          refl,
          sym (length-sort (goes_before s) entries),
          sort-IsSorted (goes_before s) goes_before-total entries,
          λ entry. In-sort (goes_before s) entry entries,
        ),
      )
