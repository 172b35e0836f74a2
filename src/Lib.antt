-- ===== src/Lib.antt =====
-- wsmr launches a Wayland compositor under systemd: it writes unit files, prepares the environment of
-- a session, starts and ends it, and starts applications in units of their own. This library models
-- the parts that decide; each file names the source that it is about.
--
-- Parts and files, by the path of the source:
--   src/error.rs             Error: the variants, the crate's `Result` and its `?`
--   src/util/fsutil.rs       Disk: a directory as a function from relative names to files, the answers
--                            of the file system as a record, and the atomic replacement of a file
--   src/filter.rs            Env.Filter; src/varnames.rs: Env.Varnames
--   src/env/delta.rs         Env.Delta: compute_changes, one function per loop
--   src/env/files.rs         Env.Files: snapshot and cleanup list, written and read
--   src/env/dump.rs          Env.Dump: the output of the loader
--   src/units/templates.rs   Units.Templates: the units verbatim (Graph, Tweaks), rendering, quoting
--                            (Quote) and drop-ins (Dropins)
--   src/units/manifest.rs    Units.Manifest: which files are the program's own
--   src/units/plan.rs        Units.Plan: what is written and removed, and what is refused
--   src/units/generate.rs    Units.Generate: plans applied, and undone where a step fails
--   src/units/escape.rs      Units.Escape; src/app/naming.rs: App.Naming
--   src/app/field.rs         App.Field: the `Exec` value of a desktop entry
--   src/app/entry.rs         App.Entry: desktop entries; values by locale (Locale), checks (Check)
--   src/app/find.rs          App.Find: the search for an entry below the data directories
--   src/app/terminal.rs      App.Terminal: a terminal's command line, the scan and its cache (Cache), the
--                            preference lists (Lists)
--   src/app/launch.rs        App.Launch: command lines of systemd-run; what is launched (Target)
--   src/app/daemon.rs        App.Daemon: the answers to requests
--   src/comp.rs              Comp: what a compositor argument names; by a desktop entry (Resolve)
--   src/session/check.rs     Session.Check: the conditions of a start
--   src/session/state.rs     Session.State: the state files under their lock, and the calls to systemd
--                            through the trait `StateOps` of src/sysd/dbus.rs
--   src/session/start.rs     Session.Start, Session.Stop (src/session/stop.rs): what comes before the
--                            process is replaced, and the end of a session
--   src/session/prepare.rs   Session.Process.Prepare, with the lifetime of a session as a relation
--                            (Prepare.Lifetime); src/session/finalize.rs, src/session/exec.rs,
--                            src/session/cleanup.rs, src/session/wait.rs: Session.Process
--   src/sysd/dbus.rs         Sysd: reading the answers; the order of two updates (Update), the loops that
--                            wait (Poll)
--   src/util/mod.rs          Util; src/util/xdg.rs: Util.Xdg
--   src/main.rs              Cli: the flags and the environment, resolved
--
-- How the parts interact: a plan is made from a disk, the loaded manifest, the rendered templates and
-- the drop-ins, and is applied to a disk; the manifest decides what may be overwritten or removed. The
-- session state uses the environment files, the name filter and the variable sets. Unit names and
-- compositor ids use the escaping. A launch and a compositor may name an entry, which is searched for,
-- read and checked. A start plans and applies units; the processes of a session that it leads to share
-- the session state and call the buses.
--
-- How code is modelled: text is a list of code points, and its bytes are written out (utf8) where the
-- source reads bytes; BTreeMap and BTreeSet are lists kept in order; numbers are natural numbers, with
-- the wrap-around of the 64-bit fingerprint written out and subtraction stopping at 0 where the source
-- saturates. A `&mut` argument is an argument and a result. A failed operation returns what it leaves,
-- also of the disk and of the other side of the bus. A loop is recursion on the list that it runs
-- over. Fuel is used in three places: for the loops that wait it counts rounds, and a theorem says how
-- many are enough; `decimal` has twenty digits, as many as a number of 64 bits; and the removal of a
-- repeated suffix has the length of the text. A directory is the finite listing that a walk finds.
-- Error and log messages are left out, and an error keeps its variant.
--
-- What is a parameter: which paths can be written and removed (Disk.Device), the lock and the listing
-- of the runtime directory (Session.State.System), the manager's side of the bus
-- (Session.State.StateOps, with its contract as Session.State.Manager.IsManager, where each call may fail;
-- the session bus as such a side is Sysd.SessionBus), the answers of the probes (Session.Check.Probes), the environment and the files of the process
-- (Util.Host), the listings of directories (App.Find.Dirs), modification times, the answers of the buses
-- (Session.Steps.BusOps, Sysd.Update.EnvUpdateOps with its documented behaviour as
-- Sysd.Update.Refines.IsBus), the loader's shell, random texts and `$HOME`.
--
-- What is not modelled: the argument parser, the proxies of the bus library, process control (spawning,
-- exec, signals, waiting for a process), the FIFOs of the daemon, the extraction of the shell helpers and
-- the helpers themselves, printed reports, empty directories that a removal leaves, file modes, and a file whose metadata
-- cannot be read, which `Path::exists` takes for one that is not there. Two
-- processes interleave by whole operations of the session state, since each holds the lock for its
-- whole run.
pub mod Base
pub mod Error
pub mod Disk
pub mod Env
pub mod Units
pub mod Util
pub mod App
pub mod Sysd
pub mod Session
pub mod Comp
pub mod Cli
pub mod Tests
