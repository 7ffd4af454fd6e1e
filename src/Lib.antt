-- ===== src/Lib.antt =====
-- pidprobe looks into a running CPython process: it injects a script through `sys.remote_exec`, the
-- script collects and sends one JSON envelope back, and the prober turns it into a snapshot, a delta
-- or a diagnosis. This library models the parts of it that decide something, and proves what they
-- promise. Names and paths are those of the repository; each file says which code it is about.
--
-- The parts, and where they are modelled:
--   Base       numbers, texts, dicts, JSON values and decimal numerals that the parts share
--   SafeRepr   src/pidprobe/_saferepr.py: bounded, secret-masking rendering of the target's objects.
--              Names is `is_secret_name`, Render is `safe_repr` and what it calls; a Process gives the
--              objects at references, so that they may be shared and contain themselves
--   Errors     src/pidprobe/_errors.py: failures, their messages and hints; also the exceptions of
--              Python that handlers tell apart, and the result of code that may raise
--   Exits      src/pidprobe/_exits.py: exit codes, their table, the hint at `pidprobe doctor`
--   Cli        src/pidprobe/cli.py: `main` around the handler of a subcommand, and in Stdout
--              `_abandon_stdout`
--   Envelope   src/pidprobe/_envelope.py: `parse_envelope` and `payload_of`
--   Inject     src/pidprobe/_inject.py: what the script does in the target; Frames is
--              `_pidprobe_target_frames`, Script the text of the script, WriteBack the write to the
--              file that is polled, in its steps, and Answer joins the script to the parser of its answer
--   Deadline   src/pidprobe/_deadline.py: the budget of a probe, on readings of the clock
--   Channel    src/pidprobe/_channel.py: Directory is `_short_tempdir`, Lifetime is how channels are
--              made and closed, Socket and TempFile are the two `receive` loops, Execute is
--              `execute_in_target` with its effects in order
--   Procinfo   src/pidprobe/_procinfo.py: facts about a target, over the system's answers
--   Diagnosis  src/pidprobe/_diagnosis.py: checks, the verdict on them and the reports
--   Doctor     src/pidprobe/_doctor.py, _attach_policy.py and _target_python.py: the preflight checks;
--              Policy, Python and Prober define them, Diagnose puts them together, Capture is the
--              handler that listens to the registry's logger
--   Diff       src/pidprobe/_diff.py: Change, Types and Sections are the delta of two snapshots, Series
--              the repeated samples
--   Collectors src/pidprobe/collectors: Contract and Compose are what a collector is and how collectors
--              become one source, Driver is what that source does in the target; Stacks, Objects, Gc
--              and Fds are the snippets of the built-in collectors as programs
--   Pools      src/pidprobe/plugins/sqlalchemy_pool.py: the snippet of the plugin as a program
--   Registry   src/pidprobe/registry.py: the discovery of plugins and the collectors of a snapshot
--   Snapshot   src/pidprobe/_snapshot.py: the document of a snapshot; Sections joins it to the driver,
--              Available to the registry
--   Eval       src/pidprobe/_eval.py: Target is what an evaluation does in the target
--   Commands   src/pidprobe/_commands.py: the handlers of the subcommands, and the built-in collectors
--   Parsers    src/pidprobe/_parsers.py: the parsers of numbers
--   Demo       demo/app.py: the deadlock and the leak of the demo, as steps
--   Tests      the theorems at concrete data
--
-- How they interact: Registry loads the collectors, Compose puts them together, and Driver runs them in
-- the target; Snapshot makes the document of what comes back, and Doctor reports what discovery logs.
-- Cli runs a handler and maps what it raises with Exits; a probe is Channel.Execute, which injects what
-- Inject models and hands what a channel received to Envelope; Doctor builds the checks of Diagnosis
-- from the answers of Procinfo; Diff compares JSON documents.
--
-- State is passed explicitly. What is not code of the repository is an argument: the file system, `ps`
-- and the target's interpreter (System), sockets (Connection), the file of the fallback and the time
-- that steps take (Reading, Step), the calls of a probe (Host), the probes of the doctor (Environment),
-- what packages publish (EntryPoint), the descriptors of a process, the answers of `gc`, `json.loads`,
-- `repr` and the tables of Unicode. What may raise of these answers with the exception: `isinstance` and
-- class names in the target too, `os.kill` on a number that is no pid, and a program whose output cannot
-- be decoded. An object answers `isinstance` the same each time, the classes of exceptions have names,
-- and `repr` of a decoded JSON value ends with a text. Seconds are whole nanoseconds, where the source
-- has floats.
--
-- Fuel and bounds: rendering recurses on the depth that the source passes down, 3. The loop of the
-- socket and that of the file have fuel for their rounds; the clock's reaching the deadline bounds the
-- first, the poll intervals in the budget the second. Iterations over containers stop at the limit of
-- elements, 10. A series of samples has its count, and one without a count as many rounds as its
-- consumer waits for.
--
-- Not modelled: the declarations of the argument parsers (argparse), the text of the collectors' snippets,
-- of which what they do is modelled, the file of the JSON schema, the database and the web server of the
-- demo, and scripts/smoke_test.py.
pub mod Base
pub mod Registry
pub mod SafeRepr
pub mod Errors
pub mod Eval
pub mod Exits
pub mod Cli
pub mod Collectors
pub mod Envelope
pub mod Inject
pub mod Demo
pub mod Diagnosis
pub mod Parsers
pub mod Pools
pub mod Procinfo
pub mod Doctor
pub mod Diff
pub mod Commands
pub mod Deadline
pub mod Channel
pub mod Snapshot
pub mod Tests
