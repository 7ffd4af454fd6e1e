-- ===== src/Collectors/Fds/Sockets.antt =====
-- src/pidprobe/collectors/_fds.py: every duplicate of a descriptor is closed again, and nothing else is.
use pidprobe.Base.{
  ◌≡◌, refl, ℕ, String, Bool, true, false, not, ◌||◌, Option, none, some, List, [], ◌∷◌, ◌++◌,
  if◌then◌else◌,
}
use pidprobe.Errors.{Exception, Result, ok, raised}
use pidprobe.Registry.{is_exception}
use pidprobe.Collectors.Fds.{
  System, Socket, Info, Effect, duplicated, closed, Run, Entry, Fds, is_skipped, socket_details,
  with_duplicate, wrapped, described, described_link, described_info, described_number, describe,
  listed, listing, fd_directory, collected, collect_fds,
}

-- Each duplicate is closed before another is made.
pub data AreClosed : List Effect → Type 0 where
  nothing : AreClosed []
  closes :
      (fd duplicate : ℕ) {effects : List Effect}
      → AreClosed effects
      → AreClosed (duplicated fd duplicate ∷ closed duplicate ∷ effects)

AreClosed-append : {xs ys : List Effect} → AreClosed xs → AreClosed ys → AreClosed (xs ++ ys)
AreClosed-append nothing k = k
AreClosed-append (closes fd duplicate h) k = closes fd duplicate (AreClosed-append h k)

module _ {F : Type 0} (s : System F)
    (contained : (duplicate : ℕ) (e : Exception)
      → s.socket duplicate ≡ raised e
      → is_exception e ≡ true) where
  wrapped-AreClosed :
      (fd duplicate : ℕ) (socket : Result (Socket F))
      → ((e : Exception) → socket ≡ raised e → is_exception e ≡ true)
      → AreClosed (duplicated fd duplicate ∷ (wrapped s duplicate socket).0)
  unfolding wrapped
  wrapped-AreClosed fd duplicate (ok sock) h = closes fd duplicate nothing
  wrapped-AreClosed fd duplicate (raised e) h = rw (h e refl) (closes fd duplicate nothing)

  with_duplicate-AreClosed : (fd : ℕ) (dup : Result ℕ) → AreClosed (with_duplicate s fd dup).0
  unfolding with_duplicate
  with_duplicate-AreClosed fd (raised e) = nothing
  with_duplicate-AreClosed fd (ok duplicate) =
      wrapped-AreClosed fd duplicate (s.socket duplicate) (contained duplicate)

  if-AreClosed :
      {A : Type 0} (b : Bool) (x y : Run A)
      → AreClosed x.0
      → AreClosed y.0
      → AreClosed (if b then x else y).0
  if-AreClosed true x y h k = h
  if-AreClosed false x y h k = k

  socket_details-AreClosed : (fd : ℕ) → AreClosed (socket_details s fd).0
  unfolding socket_details
  socket_details-AreClosed fd =
      if-AreClosed (not s.has_so_domain || s.has_default_timeout) _ _ nothing
        (with_duplicate-AreClosed fd (s.dup fd))

  described-AreClosed :
      (fd : ℕ) (info : Info) (target : Option String) → AreClosed (described s fd info target).0
  unfolding described
  described-AreClosed fd info target = if-AreClosed _ _ _ (socket_details-AreClosed fd) nothing

  described_link-AreClosed :
      (fd : ℕ) (info : Info) (target : Result (Option String))
      → AreClosed (described_link s fd info target).0
  unfolding described_link
  described_link-AreClosed fd info (ok target) = described-AreClosed fd info target
  described_link-AreClosed fd info (raised e) = nothing

  described_info-AreClosed :
      (directory name : String) (fd : ℕ) (info : Result Info)
      → AreClosed (described_info s directory name fd info).0
  unfolding described_info
  described_info-AreClosed directory name fd (ok info) = described_link-AreClosed fd info _
  described_info-AreClosed directory name fd (raised e) = nothing

  described_number-AreClosed :
      (directory name : String) (fd : Result ℕ) → AreClosed (described_number s directory name fd).0
  unfolding described_number
  described_number-AreClosed directory name (ok fd) =
      described_info-AreClosed directory name fd (s.fstat fd)
  described_number-AreClosed directory name (raised e) = nothing

  listed-AreClosed :
      (x : Run (Entry F)) (rest : Run (List (Entry F)))
      → AreClosed x.0
      → AreClosed rest.0
      → AreClosed (listed s x rest).0
  unfolding listed
  listed-AreClosed (effects, ok entry) rest h k = AreClosed-append h k
  listed-AreClosed (effects, raised e) rest h k =
      if-AreClosed (is_skipped e) _ _ (AreClosed-append h k) h

  listing-AreClosed :
      (directory : String) (names : List String) → AreClosed (listing s directory names).0
  unfolding listing describe
  listing-AreClosed directory [] = nothing
  listing-AreClosed directory (name ∷ names) =
      listed-AreClosed (describe s directory name) (listing s directory names)
        (described_number-AreClosed directory name (s.number name))
        (listing-AreClosed directory names)

  collected-AreClosed :
      (directory : String) (names : Result (List String))
      → AreClosed (collected s directory names).0
  unfolding collected
  collected-AreClosed directory (ok names) = listing-AreClosed directory names
  collected-AreClosed directory (raised e) = nothing

  -- If making a socket object raises nothing but `Exception`s, then however the collector ends, it has
  -- closed each descriptor that it duplicated, before it duplicated another, and no other descriptor.
  pub collect_fds-AreClosed : AreClosed (collect_fds s).0
  unfolding collect_fds
  collect_fds-AreClosed =
      elim (fd_directory s)
        as (λ d.
          AreClosed
            (elim d as (λ x. Run (Fds F)) [
              | none ↦ (
                [],
                ok (record { supported = false; source = none; count = 0; descriptors = [] }),
              )
              | some directory ↦ collected s directory (s.listdir directory)
            ]).0) [
              | none ↦ nothing
              | some directory ↦ collected-AreClosed directory (s.listdir directory)
            ]
