-- ===== src/Tests/Launch.antt =====
-- src/app: entries that are read and found, the scan for a terminal, and a launch.
use wsmr.Base.{
  ℕ, true, false, not, ◌&&◌, ◌||◌, ◌++◌, Option, none, some, List, [], ◌∷◌, ◌≡◌, refl, arith,
  if◌then◌else◌, any, map,
}
use wsmr.Base.Text.{
  Text, codes, text_eq, contains_char, trim, trim_start, trim_end, is_whitespace, split,
}
use wsmr.Base.Maps.{Map}
use wsmr.Base.Sets.{member, text_key}
use wsmr.Error.{ok}
use wsmr.Disk.{content}
use wsmr.Util.{Host, non_empty, unwrap_or}
use wsmr.Util.Xdg.{data_paths, data_home, data_dirs, split_colon}
use wsmr.App.Entry.{DesktopEntry, categories, get, split_list}
use wsmr.App.Entry
use wsmr.App.Entry.Parsing.{IsKey, Sections, AreSections, render}
use wsmr.App.Entry.Parsing.Values.{Reads, parse-Reads}
use wsmr.App.Find.{Listing, end, file, directory, Dirs, find_entry, list}
use wsmr.App.Find.Order.{AllComplete, open_first, find_entry-list}
use wsmr.App.Terminal.{Times, scan_for_terminal, judge}
use wsmr.App.Terminal.Cache.{IsSound, first_accepted, scan_for_terminal-IsSound}
use wsmr.App.Terminal.Lists.{read_all_lists, no_preferences}
use wsmr.App.Terminal.Lists.Precedence.{read_all_lists-first}
use wsmr.App.Launch.{AppOpts, scope}
use wsmr.App.Launch.Target.{Resolved, Terminals, resolve_target, wrap_cmdlines, resolve_launch}
use wsmr.App.Launch.Target.Command.{after_separator, resolve_launch-Runs}

type-IsKey : IsKey (codes "Type")
type-IsKey = record {
  line = omega arith;
  no_equals = omega arith;
  trimmed = unfold trim trim_start trim_end is_whitespace in refl;
  head = b'T';
  tail = codes "ype";
  begins = refl;
  solid = unfold is_whitespace in refl;
  no_bracket = refl;
  no_comment = refl;
}

abbrev sections : Sections
sections =
    (codes "Desktop Entry", (codes "Type", codes " a=b ") ∷ (codes "Type", codes "c") ∷ []) ∷ []

sections-AreSections : AreSections sections
sections-AreSections =
    ((omega arith, ((type-IsKey, omega arith), ((type-IsKey, omega arith), tt))), tt)

parse-Reads_example :
    Reads (codes "/e.desktop") sections (Entry.parse (codes "/e.desktop") (render sections))
parse-Reads_example = parse-Reads (codes "/e.desktop") sections sections-AreSections

abbrev host : Host
host = record {
  env_var = λ k. if text_eq k (codes "PATH") then some (codes "/bin") else none;
  is_executable = λ p. text_eq p (codes "/bin/sh");
  is_dir = λ _. true;
  files = λ _. content (codes "[Desktop Entry]\nType=Application\n");
}

abbrev listing : Listing
listing = directory (codes "kde") (file (codes "a.desktop") end) (file (codes "b.desktop") end)

abbrev dirs : Dirs
dirs _ = some listing

dirs_complete : AllComplete dirs (codes "applications") (data_paths host)
unfolding data_paths data_home data_dirs split_colon split unwrap_or non_empty text_eq
dirs_complete = (((tt, tt)), ((((tt, tt))), (((tt, tt)), tt)))

find_entry-list_example :
    find_entry host dirs (codes "applications") (codes "kde-a.desktop")
    ≡ open_first host.files (codes "kde-a.desktop") (list host dirs (codes "applications"))
find_entry-list_example =
    find_entry-list host dirs (codes "applications") (codes "kde-a.desktop") dirs_complete

abbrev times : Times
times _ = 7

abbrev cache : Map ℕ
cache = (codes "/usr/share/applications/b.desktop", 7) ∷ []

cache-IsSound : IsSound host times cache
cache-IsSound path h = unfold judge in refl

scan_for_terminal-IsSound_example :
    ((scan_for_terminal host times dirs [] cache).found
      ≡ first_accepted host times [] (list host dirs (codes "applications")))
    × IsSound host times (scan_for_terminal host times dirs [] cache).cache
scan_for_terminal-IsSound_example = scan_for_terminal-IsSound host times dirs [] cache cache-IsSound

abbrev terminals : Terminals
terminals _ = ok (codes "foot" ∷ [], [])

abbrev hex : ℕ → Text
hex _ = codes "deadbeef"

abbrev opts : AppOpts
opts = record {
  cmdline = codes "sh" ∷ codes "--" ∷ [];
  slice = codes "a";
  unit_type = scope;
  terminal = false;
  app_name = none;
  unit_name = some (codes "app-x.scope");
  description = some (codes "X");
  unit_properties = codes "CPUWeight=50" ∷ [];
  silent = none;
}

abbrev argvs : List (List Text)
argvs =
    (codes "systemd-run"
      ∷ codes "--user"
      ∷ codes "--scope"
      ∷ codes "--property=CPUWeight=50"
      ∷ codes "--slice=app-graphical.slice"
      ∷ codes "--unit=app-x.scope"
      ∷ codes "--description=X"
      ∷ codes "--quiet"
      ∷ codes "--collect"
      ∷ codes "--same-dir"
      ∷ codes "--"
      ∷ codes "sh"
      ∷ codes "--"
      ∷ [])
    ∷ []

launched : resolve_launch host dirs terminals hex opts ≡ ok argvs
unfolding resolve_launch
launched = refl

resolve_launch-Runs_example :
    (any (λ p. not (contains_char b'=' p)) opts.unit_properties ≡ false)
    × ((r : Resolved) × (cmds : List (List Text)) × (resolve_target host dirs opts ≡ ok r)
        × (wrap_cmdlines terminals r ≡ ok cmds)
        × (map after_separator argvs ≡ map (λ (c : List Text). some c) cmds))
resolve_launch-Runs_example = resolve_launch-Runs host dirs terminals hex opts argvs launched

abbrev localized : DesktopEntry
localized = record {
  filename = codes "foot.desktop";
  groups =
      (codes "Desktop Entry", (codes "Name", codes "Foot") ∷ (codes "Name[de]", codes "Fuss") ∷ [])
      ∷ [];
}

abbrev german : Host
german = record host {
  env_var = λ k. if text_eq k (codes "LANG") then some (codes "de_DE.UTF-8") else none;
}

abbrev list_host : Host
list_host = record host {
  files = λ p.
      if text_eq p (codes "/etc/xdg/xdg-terminals.list")
      then content (codes "-foot.desktop\nxterm.desktop\n")
      else content (codes "foot.desktop\n+foot.desktop\n");
}

abbrev user_dirs : List Text
user_dirs = codes "/home/u/.config" ∷ []

abbrev system_dirs : List Text
system_dirs = codes "/etc/xdg" ∷ []

abbrev list_files : List Text
list_files = codes "xdg-terminals.list" ∷ []

read_all_lists-first_example :
    ((more : List (Text × Option Text)) × ((read_all_lists list_host list_files
          (user_dirs ++ system_dirs)
          no_preferences).explicit
        ≡ (read_all_lists list_host list_files user_dirs no_preferences).explicit ++ more))
    × ((member
            (codes "foot.desktop")
            (read_all_lists list_host list_files user_dirs no_preferences).protected
          && (not (
                member
                  (codes "foot.desktop")
                  (read_all_lists list_host list_files
                    (user_dirs ++ system_dirs)
                    no_preferences).protected)
              || member
                  (codes "foot.desktop")
                  (read_all_lists list_host list_files
                    (user_dirs ++ system_dirs)
                    no_preferences).excluded))
        ≡ false)
read_all_lists-first_example =
    read_all_lists-first list_host list_files user_dirs system_dirs (codes "foot.desktop")
