-- ===== src/Collectors/Objects.antt =====
-- src/pidprobe/collectors/_objects.py: what the snippet does in the target, for the objects that the
-- garbage collector tracks.
pub mod Counts
use pidprobe.Base.{
  ℕ, zero, suc, ◌+◌, String, ◌<>◌, Bool, true, false, Option, none, some, List, [], ◌∷◌, take,
  length, leb, ◌=ₛ◌, if◌then◌else◌,
}
use pidprobe.Base.Dict.{Dict}
use pidprobe.Base.Sort.{sort}
use pidprobe.SafeRepr.Process.{Exc, Attempt, done, raised, ◌>>=◌, for_each}
use pidprobe.SafeRepr.Render.{try_then}

abbrev pub top_n : ℕ
top_n = 50

abbrev pub unknown_type : String
unknown_type = "<unknown>"

-- The class of an object: what `(kind.__module__, kind.__qualname__)` comes to. A module that is no
-- text is what `str` makes of it.
abbrev pub Class : Type 0
Class = Attempt (Option String × String)

label_of : Option String × String → String
label_of (none, qualname) = qualname
label_of (some module_name, qualname) =
    if module_name =ₛ "builtins" then qualname else module_name <> ("." <> qualname)

-- The label that an object is counted under.
unfoldable pub label : Class → Attempt String
unfolding label_of try_then
label names = try_then names (λ e. done unknown_type) (λ n. done (label_of n))

-- `counts[label] += 1`
unfoldable pub bump : String → Dict ℕ → Dict ℕ
bump label [] = (label, 1) ∷ []
bump label ((other, n) ∷ counts) =
    let rest = bump label counts in
    if other =ₛ label then (other, suc n) ∷ counts else (other, n) ∷ rest

-- The `for` statement, from the counts so far.
unfoldable pub tally : List String → Dict ℕ → Dict ℕ
tally [] counts = counts
tally (label ∷ labels) counts = tally labels (bump label counts)

unfoldable pub total : Dict ℕ → ℕ
total [] = 0
total ((label, n) ∷ counts) = n + total counts

-- `most_common` puts greater counts first, and keeps the order among equal ones.
unfoldable pub goes_before : String × ℕ → String × ℕ → Bool
goes_before (label, n) (other, m) = leb m n

pub record Objects : Type 0 where
  pub top_n : ℕ
  pub total_tracked : ℕ
  pub distinct_types : ℕ
  pub top : List (String × ℕ)

unfoldable pub count_objects : List String → Objects
count_objects labels =
    let counts = tally labels [] in
    record {
      top_n = top_n;
      total_tracked = total counts;
      distinct_types = length counts;
      top = take top_n (sort goes_before counts);
    }

unfoldable pub collect_objects : List Class → Attempt Objects
unfolding label
collect_objects classes = for_each label classes >>= (λ labels. done (count_objects labels))
