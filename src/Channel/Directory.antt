-- ===== src/Channel/Directory.antt =====
-- src/pidprobe/_channel.py: `_short_tempdir`. Joining paths, `is_dir` and `mkdtemp` are the system's.
use Prim.Native.String.{len}
use pidprobe.Base.{ℕ, String, Bool, false, not, ◌||◌, List, [], ◌∷◌, ltb, ◌=ₛ◌, if◌then◌else◌}
use pidprobe.Errors.{Exception, python, os_error, other_os, Result, raised}

abbrev pub max_sun_path_bytes : ℕ
max_sun_path_bytes = 104

pub record FileSystem : Type 0 where
  pub gettempdir : String
  pub is_dir : String → Bool
  -- `str(Path(base) / directory / file)`
  pub join_path : (base directory file : String) → String
  -- `mkdtemp(prefix="pidprobe-", dir=base)`
  pub mkdtemp : String → Result String

abbrev pub name_too_long : Exception
name_too_long =
    python (os_error other_os) "OSError" "no temporary directory yields a short enough AF_UNIX path"

-- `text in seen`
abbrev pub is_seen : String → List String → Bool
is_seen text [] = false
is_seen text (s ∷ seen) = text =ₛ s || is_seen text seen

module _ (fs : FileSystem) where
  -- `len(str(projected).encode()) < _MAX_SUN_PATH_BYTES`
  abbrev pub is_short : String → Bool
  is_short base = ltb (len (fs.join_path base "pidprobe-xxxxxxxx" "s.sock")) max_sun_path_bytes

  unfoldable pub first_short : List String → List String → Result String
  first_short seen [] = raised name_too_long
  first_short seen (base ∷ bases) =
      let skipped = first_short seen bases in
      let passed_by = first_short (base ∷ seen) bases in
      if is_seen base seen || not (fs.is_dir base)
      then skipped
      else if is_short base
      then fs.mkdtemp base
      else passed_by

  unfoldable pub short_tempdir : Result String
  unfolding first_short
  short_tempdir = first_short [] (fs.gettempdir ∷ "/tmp" ∷ [])
