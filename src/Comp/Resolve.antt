-- ===== src/Comp/Resolve.antt =====
-- src/comp.rs: a compositor that is named by a desktop entry, and the choice between the two kinds.
use wsmr.Base.{false, not, Option, none, some, List, [], ◌∷◌, ◌++◌, if◌then◌else◌}
use wsmr.Base.Text.{Text, codes}
use wsmr.Error.{invalid_arg, resolve, Result, ok, err, ◌>>=◌}
use wsmr.Util.{Host, or_else}
use wsmr.Units.Escape.{simple_systemd_escape}
use wsmr.App.Entry.{DesktopEntry, get, exec, split_list}
use wsmr.App.Entry.Locale.{get_localized}
use wsmr.App.Entry.Check.{check_basic}
use wsmr.App.Find.{Dirs}
use wsmr.App.Launch.Target.{load_entry}
use wsmr.Comp.{
  MainArg, parse, ResolveInput, CompGlobals, is_wm_id, file_basename, sanitize_bin_id,
  merge_desktop_names, resolve_executable,
}

bin_name_of : List Text → Text → Text
unfolding file_basename
bin_name_of [] id = file_basename id
bin_name_of (c ∷ rest) id = file_basename c

entry_globals : Host → ResolveInput → DesktopEntry → Option Text → Text → List Text → CompGlobals
unfolding simple_systemd_escape sanitize_bin_id merge_desktop_names or_else get_localized split_list
    get bin_name_of
entry_globals host i entry action id cmdline =
    let bin_name = bin_name_of cmdline id in
    record {
      cmdline = cmdline;
      id = id;
      id_unit_string = simple_systemd_escape id false;
      bin_name = bin_name;
      bin_id = sanitize_bin_id bin_name;
      desktop_names =
          merge_desktop_names i bin_name (split_list (get entry (codes "DesktopNames") none));
      name = or_else i.name (get_localized host entry (codes "Name") action);
      description = or_else i.description (get_localized host entry (codes "Comment") action);
      cli_desktop_names = i.desktop_names;
      cli_desktop_names_exclusive = i.desktop_names_exclusive;
    }

named_globals :
    Host → ResolveInput → DesktopEntry → Option Text → Text → List Text → Result CompGlobals
unfolding is_wm_id entry_globals
named_globals host i entry action id cmdline =
    if not (is_wm_id id) then err resolve else ok (entry_globals host i entry action id cmdline)

unfoldable pub resolve_entry :
    Host → Dirs → ResolveInput → List Text → MainArg → Text → Result CompGlobals
unfolding load_entry check_basic exec named_globals
resolve_entry host dirs i args main id =
    load_entry host dirs (codes "wayland-sessions") main.path id >>= λ entry.
    check_basic host entry main.entry_action >>= λ _. exec entry main.entry_action >>= λ toks.
    named_globals host i entry main.entry_action id (toks ++ args)

resolve_main : Host → Dirs → ResolveInput → Text → List Text → MainArg → Result CompGlobals
unfolding resolve_entry resolve_executable
resolve_main host dirs i arg0 args main = elim main.entry_id [
  | none ↦ resolve_executable i arg0
  | some id ↦ resolve_entry host dirs i args main id
]

resolve_words : Host → Dirs → ResolveInput → List Text → Result CompGlobals
unfolding resolve_main parse
resolve_words host dirs i [] = err invalid_arg
resolve_words host dirs i (arg0 ∷ args) =
    parse (host.env_var (codes "HOME")) arg0 >>= resolve_main host dirs i arg0 args

unfoldable pub resolve_comp : Host → Dirs → ResolveInput → Result CompGlobals
unfolding resolve_words
resolve_comp host dirs i = resolve_words host dirs i i.wm_cmdline
