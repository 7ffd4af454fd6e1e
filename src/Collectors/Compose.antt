-- ===== src/Collectors/Compose.antt =====
-- src/pidprobe/collectors/_base.py: the source of a run, put together from the collectors' own.
use pidprobe.Base.{
  ◌≡◌, ◌≢◌, ◌↔◌, refl, String, ◌<>◌, code, not, ◌&&◌, ◌==◌, ◌=ₛ◌, ℕ, List, [], ◌∷◌, ◌++◌, map,
  length, if◌then◌else◌, Bool-cases, ==_iff, inl, inr, arith,
}
use pidprobe.Base.Distinct.{distinct, distinct_iff, AllDistinct}
use pidprobe.Base.Text
use pidprobe.Errors.{Result, ok}
use pidprobe.Collectors.Contract.{Collector, names, Texts, invalid, section_function_prefix}

-- `text.lstrip(c)`
unfoldable pub strip_start : ℕ → String → String
strip_start c String.[] = String.[]
strip_start c (String.◌∷◌ d s) =
    let rest = strip_start c s in if code d == c then rest else String.◌∷◌ d s

-- `text.rstrip(c)`
unfoldable pub strip_end : ℕ → String → String
strip_end c String.[] = String.[]
strip_end c (String.◌∷◌ d s) =
    let rest = strip_end c s in
    if (rest =ₛ String.[]) && (code d == c) then String.[] else String.◌∷◌ d rest

-- `'("{name}", _pidprobe_section_{name}), '`
spec : String → String
spec name = "(\"" <> (name <> ("\", " <> (section_function_prefix <> (name <> "), "))))

-- A spec ends in a comma and one space, so that `rstrip()` takes off spaces alone.
specs : List String → String
unfolding spec strip_end
specs names = strip_end 32 (Text.join "" (map spec names))

-- The lines of `_DRIVER_SOURCE` before the specs, and after them.
abbrev driver_head : String
driver_head = "\nimport os as _pidprobe_osmod\nimport time as _pidprobe_time\n\n_pidprobe_specs = ("

abbrev driver_tail : List String
driver_tail =
    ")" ∷ "_pidprobe_started = _pidprobe_time.perf_counter()" ∷ "_pidprobe_sections = {}"
    ∷ "_pidprobe_reports = []" ∷ "" ∷ "for _pidprobe_name, _pidprobe_section in _pidprobe_specs:"
    ∷ "    _pidprobe_begin = _pidprobe_time.perf_counter()" ∷ "    try:"
    ∷ "        _pidprobe_sections[_pidprobe_name] = _pidprobe_section()"
    ∷ "        _pidprobe_report = {\"name\": _pidprobe_name, \"status\": \"ok\", \"error\": None}"
    ∷ "    except Exception:" ∷ "        _pidprobe_sections[_pidprobe_name] = None"
    ∷ "        _pidprobe_failure = _pidprobe_sys.exc_info()[1]" ∷ "        _pidprobe_report = {"
    ∷ "            \"name\": _pidprobe_name," ∷ "            \"status\": \"error\","
    ∷ "            \"error\": {" ∷ "                \"type\": type(_pidprobe_failure).__name__,"
    ∷ "                \"message\": str(_pidprobe_failure),"
    ∷ "                \"traceback\": _pidprobe_traceback.format_exc()," ∷ "            },"
    ∷ "        }" ∷ "    _pidprobe_report[\"duration_ms\"] = ("
    ∷ "        _pidprobe_time.perf_counter() - _pidprobe_begin" ∷ "    ) * 1000.0"
    ∷ "    _pidprobe_reports.append(_pidprobe_report)" ∷ "" ∷ "payload = {"
    ∷ "    \"sections\": _pidprobe_sections," ∷ "    \"collectors\": _pidprobe_reports,"
    ∷ "    \"target\": {" ∷ "        \"pid\": _pidprobe_osmod.getpid(),"
    ∷ "        \"python_version\": _pidprobe_sys.version.split()[0],"
    ∷ "        \"implementation\": _pidprobe_sys.implementation.name,"
    ∷ "        \"platform\": _pidprobe_sys.platform,"
    ∷ "        \"executable\": _pidprobe_sys.executable," ∷ "    }," ∷ "    \"stop_duration_ms\": ("
    ∷ "        _pidprobe_time.perf_counter() - _pidprobe_started" ∷ "    ) * 1000.0," ∷ "}" ∷ ""
    ∷ []

-- `_DRIVER_SOURCE.replace(_SPECS_PLACEHOLDER, specs)`
driver_source : String → String
driver_source specs = driver_head <> (specs <> Text.join "\n" driver_tail)

module _ (t : Texts) where
  section_function : Collector → String
  unfolding strip_start strip_end
  section_function c =
      let body = strip_end 10 (strip_start 10 (t.dedent c.source)) in
      Text.join "\n" (
        ("def " <> (section_function_prefix <> (c.name <> "():")))
        ∷ t.indent body "    "
        ∷ "    return data"
        ∷ ""
        ∷ [])

  -- The parts of the source: a function for each collector, and the driver.
  unfoldable pub parts : List Collector → List String
  unfolding section_function driver_source specs
  parts ordered = map section_function ordered ++ (driver_source (specs (names ordered)) ∷ [])

  unfoldable pub compose_collector_source : List Collector → Result String
  compose_collector_source [] = invalid "at least one collector is required"
  compose_collector_source (c ∷ cs) =
      let named = names (c ∷ cs) in
      if not (length (distinct named) == length named)
      then invalid
          ("collector names must be unique, got [" <> (Text.join ", " (map t.repr named) <> "]"))
      else ok (Text.join "\n" (parts (c ∷ cs)))

  -- Collectors whose names are distinct are put together, if there is any.
  pub compose_collector_source-ok :
      (c : Collector) (cs : List Collector)
      → AllDistinct (names (c ∷ cs))
      → compose_collector_source (c ∷ cs) ≡ ok (Text.join "\n" (parts (c ∷ cs)))
  unfolding compose_collector_source
  compose_collector_source-ok c cs h =
      let named = names (c ∷ cs) in
      let same = (==_iff (length (distinct named)) (length named)).1 ((distinct_iff named).1 h) in
      rw same refl

  -- A run of collectors is put together exactly if there is any and their names are distinct.
  pub compose_collector_source_iff :
      (cs : List Collector)
      → (compose_collector_source cs ≡ ok (Text.join "\n" (parts cs)))
        ↔ ((cs ≢ []) × AllDistinct (names cs))
  unfolding compose_collector_source
  compose_collector_source_iff [] = ground arith
  compose_collector_source_iff (c ∷ cs) =
      let named = names (c ∷ cs) in
      let same = ==_iff (length (distinct named)) (length named) in
      let set = distinct_iff named in
      elim (Bool-cases (length (distinct named) == length named)) [
        | inl e ↦ rw e (λ h. ((λ n. ground (arith, n)), set.0 (same.0 e)), λ h. refl)
        | inr e ↦ rw e (λ h. ground (arith, h), λ h. absurd (cc (e, same.1 (set.1 h.1))))
      ]
