-- ===== src/App/Launch.antt =====
-- src/app/launch.rs: what is launched, and the command line of `systemd-run` for it.
pub mod Target
use wsmr.Base.{
  ℕ, zero, suc, Bool, true, false, not, ◌&&◌, ◌||◌, Option, none, some, List, [], ◌∷◌, ◌++◌, ◌==◌,
  ltb, if◌then◌else◌, is_empty, any, map, keep, length, first,
}
use wsmr.Base.Text.{Text, codes, text_eq, contains_char, ends_with, split, join, utf8}
use wsmr.Base.Maps.{Map, lookup, is_some}
use wsmr.Error.{Error, invalid_arg, resolve, io, Result, ok, err, ◌>>=◌}
use wsmr.Env.Varnames.{session_specific_list}
use wsmr.Util.{Host, unwrap_or, non_empty, or_else}
use wsmr.App.Naming.{auto_unit_name}
use wsmr.Comp.{file_basename}

pub data UnitType : Type 0 where
  scope service : UnitType

unfoldable pub as_str : UnitType → Text
as_str scope = codes "scope"
as_str service = codes "service"

pub data Silence : Type 0 where
  out err_out both : Silence

pub record AppOpts : Type 0 where
  pub cmdline : List Text
  pub slice : Text
  pub unit_type : UnitType
  pub terminal : Bool
  pub app_name : Option Text
  pub unit_name : Option Text
  pub description : Option Text
  pub unit_properties : List Text
  pub silent : Option Silence

pub record LaunchSpec : Type 0 where
  pub cmdline : List Text
  pub slice : Text
  pub unit_type : UnitType
  pub unit_name : Text
  pub description : Text
  pub properties : List Text
  pub silent : Option Silence
  pub workdir : Option Text
  pub session_setenv : List (Text × Text)

setenv_words : List (Text × Text) → List Text
setenv_words [] = []
setenv_words ((k, v) ∷ vars) = (codes "--setenv=" ++ k ++ codes "=" ++ v) ∷ setenv_words vars

silence_words : Option Silence → List Text
silence_words none = []
silence_words (some out) = codes "--property=StandardOutput=null" ∷ []
silence_words (some err_out) = codes "--property=StandardError=null" ∷ []
silence_words (some both) =
    codes "--property=StandardOutput=null" ∷ codes "--property=StandardError=null" ∷ []

type_words : UnitType → List (Text × Text) → Option Silence → List Text
unfolding setenv_words silence_words
type_words scope vars silent = codes "--scope" ∷ []
type_words service vars silent =
    codes "--property=Type=exec"
    ∷ codes "--property=ExitType=cgroup"
    ∷ (setenv_words vars ++ silence_words silent)

property_words : List Text → List Text
property_words [] = []
property_words (p ∷ ps) = (codes "--property=" ++ p) ∷ property_words ps

workdir_word : Option Text → Text
workdir_word none = codes "--same-dir"
workdir_word (some d) = codes "--working-directory=" ++ d

-- The words in front of the separator.
run_words : LaunchSpec → List Text
unfolding type_words property_words workdir_word
run_words spec =
    codes "systemd-run"
    ∷ codes "--user"
    ∷ (type_words spec.unit_type spec.session_setenv spec.silent
        ++ property_words spec.properties
        ++ (codes "--slice=" ++ spec.slice)
          ∷ (codes "--unit=" ++ spec.unit_name)
          ∷ (codes "--description=" ++ spec.description)
          ∷ codes "--quiet"
          ∷ codes "--collect"
          ∷ workdir_word spec.workdir
          ∷ [])

unfoldable pub build_argv : LaunchSpec → List Text
unfolding run_words
build_argv spec = run_words spec ++ codes "--" ∷ spec.cmdline

unfoldable pub cmd_name : List Text → Text
unfolding file_basename
cmd_name [] = codes "app"
cmd_name (c ∷ rest) = file_basename c

-- A unit name that was given; the bound is on its bytes.
checked_name : Text → Text → Result Text
unfolding ends_with utf8
checked_name suffix u =
    if not (ends_with suffix u)
    then err invalid_arg
    else if ltb 255 (length (utf8 u))
    then err invalid_arg
    else ok u

-- `hex` is the random part of the name.
unfoldable pub resolve_unit_name : AppOpts → Text → Option Text → List Text → Text → Result Text
unfolding checked_name as_str auto_unit_name unwrap_or cmd_name
resolve_unit_name opts desktop app_name cmd hex = elim opts.unit_name [
  | some u ↦ checked_name (codes "." ++ as_str opts.unit_type) u
  | none ↦
      ok (auto_unit_name (as_str opts.unit_type) desktop (unwrap_or (cmd_name cmd) app_name) hex)
]

unfoldable pub resolve_slice : Text → Result Text
unfolding text_eq ends_with
resolve_slice s =
    if text_eq s (codes "a")
    then ok (codes "app-graphical.slice")
    else if text_eq s (codes "b")
    then ok (codes "background-graphical.slice")
    else if text_eq s (codes "s")
    then ok (codes "session-graphical.slice")
    else if ends_with (codes ".slice") s
    then ok s
    else err invalid_arg

unfoldable pub final_description : Option Text → Option Text → List Text → Text
unfolding or_else unwrap_or cmd_name
final_description desc app_name cmd = unwrap_or (cmd_name cmd) (or_else desc app_name)

set_vars : Host → List Text → List (Text × Text)
unfolding non_empty
set_vars host [] = []
set_vars host (k ∷ ks) = elim (non_empty (host.env_var k)) [
  | none ↦ set_vars host ks
  | some v ↦ (k, v) ∷ set_vars host ks
]

unfoldable pub session_specific_env : Host → List (Text × Text)
unfolding set_vars
session_specific_env host = set_vars host session_specific_list

first_of : Option Text → Option Text
unfolding split
first_of none = none
first_of (some s) = first (split b':' s)

unfoldable pub first_desktop : Host → Text
unfolding unwrap_or non_empty first_of
first_desktop host =
    unwrap_or (codes "wsmr") (non_empty (first_of (host.env_var (codes "XDG_CURRENT_DESKTOP"))))

pub desktop_entry_vars : List Text
desktop_entry_vars =
    codes "DESKTOP_ENTRY_ID"
    ∷ codes "DESKTOP_ENTRY_PATH"
    ∷ codes "DESKTOP_ENTRY_NAME"
    ∷ codes "DESKTOP_ENTRY_NAME_L"
    ∷ codes "DESKTOP_ENTRY_COMMENT"
    ∷ codes "DESKTOP_ENTRY_COMMENT_L"
    ∷ codes "DESKTOP_ENTRY_GENERICNAME"
    ∷ codes "DESKTOP_ENTRY_GENERICNAME_L"
    ∷ codes "DESKTOP_ENTRY_ICON"
    ∷ codes "DESKTOP_ENTRY_ACTION"
    ∷ codes "DESKTOP_ENTRY_ACTION_NAME"
    ∷ codes "DESKTOP_ENTRY_ACTION_NAME_L"
    ∷ codes "DESKTOP_ENTRY_ACTION_ICON"
    ∷ []

-- A command as it is given to the system: the variables that it is not to see, and the streams that
-- go nowhere.
pub record Child : Type 0 where
  pub program : Text
  pub args : List Text
  pub env_remove : List Text
  pub stdout_null : Bool
  pub stderr_null : Bool

silences_out : UnitType → Option Silence → Bool
silences_out service s = false
silences_out scope none = false
silences_out scope (some out) = true
silences_out scope (some err_out) = false
silences_out scope (some both) = true

silences_err : UnitType → Option Silence → Bool
silences_err service s = false
silences_err scope none = false
silences_err scope (some out) = false
silences_err scope (some err_out) = true
silences_err scope (some both) = true

-- Of a command line that is not empty, `program ∷ args`.
unfoldable pub configure : Text → List Text → UnitType → Option Silence → Child
unfolding desktop_entry_vars silences_out silences_err
configure program args unit_type silent = record {
  program = program;
  args = args;
  env_remove = desktop_entry_vars;
  stdout_null = silences_out unit_type silent;
  stderr_null = silences_err unit_type silent;
}

-- The end of `run` for several instances: whether each of them has been a success.
unfoldable pub wait_all : List Bool → Result (Unit {0})
wait_all [] = ok tt
wait_all (s ∷ ss) = if s then wait_all ss else err resolve
