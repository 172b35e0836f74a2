-- ===== src/App/Launch/Target.antt =====
-- src/app/launch.rs: the target of a launch, resolved to command lines.
pub mod Command
use wsmr.Base.{
  ℕ, zero, suc, Bool, true, false, not, ◌&&◌, ◌||◌, Option, none, some, List, [], ◌∷◌, ◌++◌, ◌==◌,
  ltb, if◌then◌else◌, is_empty, any, all, map, keep, length,
}
use mathlib.Core.List.{reverse}
use wsmr.Base.Text.{Text, codes, text_eq, contains_char, join, starts_with, strip_suffix}
use wsmr.Base.Maps.{is_some}
use wsmr.Error.{Error, invalid_arg, resolve, Result, ok, err, ◌>>=◌}
use wsmr.Disk.{File}
use wsmr.Util.{Host, unwrap_or, non_empty, or_else, which}
use wsmr.App.Naming.{auto_unit_name}
use wsmr.App.Field.{EntryCtx, GenArgs, single, multi, gen_entry_args}
use wsmr.App.Entry.{DesktopEntry, get, exec}
use wsmr.App.Entry
use wsmr.App.Entry.Locale.{get_localized}
use wsmr.App.Entry.Check.{check_basic}
use wsmr.App.Find.{Dirs, find_entry, read_entry}
use wsmr.App.Terminal.{TermOpts}
use wsmr.Comp.{MainArg, parse}
use wsmr.App.Launch.{
  AppOpts, UnitType, scope, service, as_str, LaunchSpec, build_argv, cmd_name, resolve_unit_name,
  resolve_slice, final_description, session_specific_env, first_desktop,
}

pub record Resolved : Type 0 where
  pub cmdlines : List (List Text)
  pub app_name : Option Text
  pub description : Option Text
  pub workdir : Option Text
  pub properties : List Text
  pub want_terminal : Bool

-- The names that are there, joined.
joined : List Text → Option Text
unfolding join non_empty
joined names = non_empty (some (join (codes " - ") (keep (λ s. not (is_empty s)) names)))

unfoldable pub entry_description : Host → DesktopEntry → Option Text → Option Text
unfolding joined get_localized unwrap_or
entry_description host entry action = joined (
    unwrap_or [] (get_localized host entry (codes "Name") action)
    ∷ unwrap_or [] (get_localized host entry (codes "GenericName") none)
    ∷ [])

-- The first of two variables that is set and not empty.
pick : Host → Text → Text → Text
unfolding non_empty or_else unwrap_or
pick host a b = unwrap_or [] (or_else (non_empty (host.env_var a)) (non_empty (host.env_var b)))

unfoldable pub desktop_entry_env_description : Host → Option Text
unfolding joined pick
desktop_entry_env_description host = joined (
    pick host (codes "DESKTOP_ENTRY_NAME_L") (codes "DESKTOP_ENTRY_NAME")
    ∷ pick host (codes "DESKTOP_ENTRY_GENERICNAME_L") (codes "DESKTOP_ENTRY_GENERICNAME")
    ∷ [])

strip_desktop_from : ℕ → Text → Text
unfolding strip_suffix
strip_desktop_from zero s = s
strip_desktop_from (suc n) s = elim (strip_suffix (codes ".desktop") s) [
  | none ↦ s
  | some before ↦ strip_desktop_from n before
]

-- `trim_end_matches(".desktop")`, which takes the suffix off as often as it is there; each time makes
-- the text shorter.
pub trim_desktop : Text → Text
unfolding strip_desktop_from
trim_desktop s = strip_desktop_from (length s) s

found_or_resolve : Option DesktopEntry → Result DesktopEntry
found_or_resolve none = err resolve
found_or_resolve (some e) = ok e

unfoldable pub load_entry : Host → Dirs → Text → Option Text → Text → Result DesktopEntry
unfolding found_or_resolve find_entry read_entry
load_entry host dirs subpath (some p) id = read_entry p (host.files p)
load_entry host dirs subpath none id = find_entry host dirs subpath id >>= found_or_resolve

-- A directory that is there.
existing_dir : Host → Option Text → Option Text
existing_dir host none = none
existing_dir host (some d) = if host.is_dir d then some d else none

cmdlines_of : GenArgs → List (List Text)
cmdlines_of (single c) = c ∷ []
cmdlines_of (multi cs) = cs

entry_ctx : Host → DesktopEntry → EntryCtx
unfolding unwrap_or get_localized get
entry_ctx host entry = record {
  name = unwrap_or [] (get_localized host entry (codes "Name") none);
  icon = unwrap_or [] (get entry (codes "Icon") none);
  filename = entry.filename;
}

or_given : Option Text → Option Text → Option Text
unfolding or_else
or_given given other = or_else given other

-- The target that is a desktop entry, loaded.
resolve_entry_target :
    Host → AppOpts → List Text → Text → Option Text → DesktopEntry → Result Resolved
unfolding check_basic exec gen_entry_args entry_ctx existing_dir Entry.path or_else
    entry_description cmdlines_of Entry.terminal trim_desktop
resolve_entry_target host opts args id action entry = check_basic host entry action >>= λ _.
    exec entry action >>= λ toks. gen_entry_args toks args (entry_ctx host entry) >>= λ gen.
    ok (record {
      cmdlines = cmdlines_of gen;
      app_name = or_else opts.app_name (some (trim_desktop id));
      description = or_else opts.description (entry_description host entry action);
      workdir = existing_dir host (Entry.path entry);
      properties = opts.unit_properties ++ (codes "SourcePath=" ++ entry.filename) ∷ [];
      want_terminal = opts.terminal || Entry.terminal entry;
    })

trimmed_id : Option Text → Option Text
unfolding trim_desktop
trimmed_id none = none
trimmed_id (some id) = some (trim_desktop id)

source_path : Option Text → List Text
source_path none = []
source_path (some p) = (codes "SourcePath=" ++ p) ∷ []

-- The target that is an executable, with what the variables of an entry say of it.
resolve_executable_target : Host → AppOpts → Text → Result Resolved
unfolding which or_else trimmed_id non_empty source_path desktop_entry_env_description
resolve_executable_target host opts arg0 =
    if not (is_some (which host arg0))
    then err resolve
    else ok (record {
      cmdlines = opts.cmdline ∷ [];
      app_name =
          or_else opts.app_name (trimmed_id (non_empty (host.env_var (codes "DESKTOP_ENTRY_ID"))));
      description = or_else opts.description (desktop_entry_env_description host);
      workdir = none;
      properties =
          opts.unit_properties
          ++ source_path (non_empty (host.env_var (codes "DESKTOP_ENTRY_PATH")));
      want_terminal = opts.terminal;
    })

resolve_main : Host → Dirs → AppOpts → Text → List Text → MainArg → Result Resolved
unfolding load_entry resolve_entry_target resolve_executable_target
resolve_main host dirs opts arg0 args main = elim main.entry_id [
  | none ↦ resolve_executable_target host opts arg0
  | some id ↦
      load_entry host dirs (codes "applications") main.path id
      >>= resolve_entry_target host opts args id main.entry_action
]

-- The terminal itself.
resolve_terminal_target : AppOpts → Result Resolved
unfolding or_else
resolve_terminal_target opts =
    if not opts.terminal
    then err invalid_arg
    else ok (record {
      cmdlines = [] ∷ [];
      app_name = or_else opts.app_name (some (codes "terminal"));
      description = opts.description;
      workdir = none;
      properties = opts.unit_properties;
      want_terminal = true;
    })

resolve_words : Host → Dirs → AppOpts → List Text → Result Resolved
unfolding resolve_terminal_target resolve_main parse
resolve_words host dirs opts [] = resolve_terminal_target opts
resolve_words host dirs opts (arg0 ∷ args) =
    parse (host.env_var (codes "HOME")) arg0 >>= resolve_main host dirs opts arg0 args

unfoldable pub resolve_target : Host → Dirs → AppOpts → Result Resolved
unfolding resolve_words
resolve_target host dirs opts = resolve_words host dirs opts opts.cmdline

-- A command line behind that of the terminal.
in_terminal : List Text × List Text → List Text → List Text
in_terminal (tcmd, exec_arg) [] = tcmd
in_terminal (tcmd, exec_arg) (c ∷ cs) = tcmd ++ exec_arg ++ c ∷ cs

-- `resolve_terminal`, as it is called with the options of the launch.
abbrev pub Terminals : Type 0
Terminals = TermOpts → Result (List Text × List Text)

pub wrap_cmdlines : Terminals → Resolved → Result (List (List Text))
unfolding in_terminal
wrap_cmdlines terminals r =
    if r.want_terminal
    then (terminals
          (record { app_id = r.app_name; title = r.description; dir = r.workdir; hold = false })
        >>= λ t. ok (map (in_terminal t) r.cmdlines))
    else ok r.cmdlines

setenv_of : Host → UnitType → List (Text × Text)
unfolding session_specific_env
setenv_of host scope = []
setenv_of host service = session_specific_env host

-- The name of the unit of one of the command lines.
pub name_for : AppOpts → Text → Resolved → Bool → List Text → Text → Result Text
unfolding auto_unit_name as_str unwrap_or cmd_name resolve_unit_name
name_for opts desktop r several cmd hex =
    if several
    then ok
        (auto_unit_name (as_str opts.unit_type) desktop (unwrap_or (cmd_name cmd) r.app_name) hex)
    else resolve_unit_name opts desktop r.app_name cmd hex

pub spec_for : Host → AppOpts → Resolved → Text → List Text → Text → LaunchSpec
unfolding final_description setenv_of
spec_for host opts r slice cmd unit_name = record {
  cmdline = cmd;
  slice = slice;
  unit_type = opts.unit_type;
  unit_name = unit_name;
  description = final_description r.description r.app_name cmd;
  properties = r.properties;
  silent = opts.silent;
  workdir = r.workdir;
  session_setenv = setenv_of host opts.unit_type;
}

-- The loop over the command lines; `n` of them have been named, and `hex n` is the next random text.
pub argvs_from :
    Host
    → AppOpts
    → (ℕ → Text)
    → Resolved
    → Text
    → Bool
    → ℕ
    → List (List Text)
    → Result (List (List Text))
unfolding name_for spec_for build_argv first_desktop
argvs_from host opts hex r slice several n [] = ok []
argvs_from host opts hex r slice several n (cmd ∷ cmds) =
    name_for opts (first_desktop host) r several cmd (hex n) >>= λ unit_name.
    argvs_from host opts hex r slice several (suc n) cmds >>= λ argvs.
    ok (build_argv (spec_for host opts r slice cmd unit_name) ∷ argvs)

pub argvs_of : Host → AppOpts → (ℕ → Text) → Resolved → List (List Text) → Result (List (List Text))
unfolding argvs_from resolve_slice
argvs_of host opts hex r cmdlines = resolve_slice opts.slice >>= λ slice.
    argvs_from host opts hex r slice (ltb 1 (length cmdlines)) 0 cmdlines

unfoldable pub resolve_launch :
    Host → Dirs → Terminals → (ℕ → Text) → AppOpts → Result (List (List Text))
unfolding resolve_target wrap_cmdlines argvs_of contains_char
resolve_launch host dirs terminals hex opts =
    if any (λ p. not (contains_char b'=' p)) opts.unit_properties
    then err invalid_arg
    else resolve_target host dirs opts >>= λ r.
        wrap_cmdlines terminals r >>= λ cmdlines. argvs_of host opts hex r cmdlines
