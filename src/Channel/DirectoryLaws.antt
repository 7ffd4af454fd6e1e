-- ===== src/Channel/DirectoryLaws.antt =====
-- src/pidprobe/_channel.py: where `_short_tempdir` makes its directory.
use pidprobe.Base.{◌≡◌, ◌⊎◌, String, true, arith, eq_iff}
use pidprobe.Errors.{raised}
use pidprobe.Channel.Directory.{FileSystem, is_short, name_too_long, first_short, short_tempdir}

-- A base that will do: a directory in which the path of the socket is short enough.
abbrev pub Fits : FileSystem → String → Type 0
Fits fs base = (fs.is_dir base ≡ true) × (is_short fs base ≡ true)

-- If the directory for temporary files will do, it is taken; else `/tmp` is, if that will do; and if
-- neither does, the answer is the error that a name is too long. Nothing is made in any other case.
pub short_tempdir_lem :
    (fs : FileSystem)
    → (Fits fs fs.gettempdir × (short_tempdir fs ≡ fs.mkdtemp fs.gettempdir))
      ⊎ ((Fits fs fs.gettempdir → ⊥) × Fits fs "/tmp" × (short_tempdir fs ≡ fs.mkdtemp "/tmp"))
      ⊎ ((Fits fs fs.gettempdir → ⊥)
          × (Fits fs "/tmp" → ⊥)
          × (short_tempdir fs ≡ raised name_too_long))
unfolding short_tempdir first_short
short_tempdir_lem fs = ground (arith, eq_iff fs.gettempdir "/tmp", eq_iff "/tmp" fs.gettempdir)
