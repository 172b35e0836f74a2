-- ===== src/App/Terminal.antt =====
-- src/app/terminal.rs: the command line of a terminal, the preference lists, and the scan for a
-- terminal with its cache. The keys of the cache are the texts of the paths.
pub mod Lists
pub mod Cache
use wsmr.Base.{
  ℕ, Bool, true, false, not, ◌&&◌, ◌||◌, Option, none, some, List, [], ◌∷◌, ◌++◌, ◌==◌,
  if◌then◌else◌, is_empty, any, map,
}
use wsmr.Base.Text.{
  Text, codes, text_eq, trim, starts_with, strip_prefix, strip_suffix, split_once, lines,
  contains_char,
}
use wsmr.Base.Maps.{Map, lookup, insert, is_some}
use wsmr.Base.Sets.{member, text_key}
use wsmr.Error.{Error, resolve, Result, ok, err, ◌>>=◌}
use wsmr.Disk.{File, missing, unreadable, content, Disk}
use wsmr.Util.{Host, unwrap_or, non_empty, or_else, parse_unsigned, u64_max, decimal}
use wsmr.App.Field.{expand_str}
use wsmr.App.Entry.{DesktopEntry, parse, get, exec, categories}
use wsmr.App.Entry.Check.{check_basic, check_showin}
use wsmr.App.Find.{Dirs, Found, find_entry, list}

pub record TermOpts : Type 0 where
  pub app_id : Option Text
  pub title : Option Text
  pub dir : Option Text
  pub hold : Bool

-- The value of the first key that is there.
find_key : DesktopEntry → List Text → Option Text
unfolding get or_else
find_key entry [] = none
find_key entry (k ∷ keys) = or_else (get entry k none) (find_key entry keys)

-- Where the first key that is there has an empty value, a later key is not asked.
unfoldable pub first_key : DesktopEntry → List Text → Option Text
unfolding find_key non_empty
first_key entry keys = non_empty (find_key entry keys)

option_words : Text → Option Text → Text → List Text
option_words arg none value = arg ∷ value ∷ []
option_words arg (some prefix) value = (prefix ++ codes "=" ++ value) ∷ []

-- What `append_opt` appends: for `--name=` one word, and two otherwise.
opt_words : Option Text → Text → List Text
unfolding option_words strip_suffix
opt_words none value = []
opt_words (some arg) value = option_words arg (strip_suffix (codes "=") arg) value

append_opt : DesktopEntry → List Text → Option Text → List Text → List Text
unfolding opt_words first_key
append_opt entry keys none cmdline = cmdline
append_opt entry keys (some v) cmdline = cmdline ++ opt_words (first_key entry keys) v

append_hold : Bool → Option Text → List Text → List Text
append_hold true (some h) cmdline = cmdline ++ h ∷ []
append_hold true none cmdline = cmdline
append_hold false o cmdline = cmdline

exec_arg_of : Text → List Text
exec_arg_of raw = if is_empty raw then [] else raw ∷ []

expanded_or_e : Option Text → Text
unfolding expand_str
expanded_or_e none = codes "-e"
expanded_or_e (some s) = expand_str s

exec_arg : DesktopEntry → List Text
unfolding exec_arg_of expanded_or_e first_key
exec_arg entry = exec_arg_of (
    expanded_or_e (
      first_key entry (
        codes "TerminalArgExec"
        ∷ codes "X-TerminalArgExec"
        ∷ codes "ExecArg"
        ∷ codes "X-ExecArg"
        ∷ [])))

with_options : DesktopEntry → TermOpts → List Text → List Text
unfolding append_opt append_hold first_key
with_options entry opts cmdline =
    append_hold opts.hold
      (first_key entry (codes "TerminalArgHold" ∷ codes "X-TerminalArgHold" ∷ []))
      (append_opt entry (codes "TerminalArgDir" ∷ codes "X-TerminalArgDir" ∷ []) opts.dir (
        append_opt entry (codes "TerminalArgTitle" ∷ codes "X-TerminalArgTitle" ∷ []) opts.title (
          append_opt entry (codes "TerminalArgAppId" ∷ codes "X-TerminalArgAppId" ∷ []) opts.app_id
            cmdline)))

unfoldable pub build_terminal :
    DesktopEntry → Option Text → TermOpts → Result (List Text × List Text)
unfolding exec exec_arg with_options
build_terminal entry action opts =
    exec entry action >>= λ cmdline. ok (with_options entry opts cmdline, exec_arg entry)

unfoldable pub is_terminal : DesktopEntry → Bool
unfolding member categories
is_terminal e = member (codes "TerminalEmulator") (categories e)

pub is_ok : {A : Type 0} → Result A → Bool
is_ok (ok _) = true
is_ok (err _) = false

-- What the scan makes of a file: it is passed over, is no terminal, or is the terminal.
pub data Verdict : Type 0 where
  pass_over not_terminal : Verdict
  accept : DesktopEntry → Verdict

judge_entry : Host → DesktopEntry → Verdict
unfolding is_terminal check_basic check_showin is_ok
judge_entry host e =
    if is_terminal e
    then if is_ok (check_basic host e none) && is_ok (check_showin host e)
      then accept e
      else pass_over
    else not_terminal

judge_parsed : Host → Result DesktopEntry → Verdict
unfolding judge_entry
judge_parsed host (err x) = pass_over
judge_parsed host (ok e) = judge_entry host e

unfoldable pub judge : Host → Text → File → Verdict
unfolding judge_parsed parse
judge host path (content c) = judge_parsed host (parse path c)
judge host path missing = pass_over
judge host path unreadable = pass_over

-- The variables of the loop of `scan_for_terminal`.
pub record Scan : Type 0 where
  pub cache : Map ℕ
  pub changed : Bool
  pub found : Option DesktopEntry

-- `cache.get(&path) == Some(&mtime)`
pub is_cached : Option ℕ → ℕ → Bool
is_cached none mtime = false
is_cached (some t) mtime = t == mtime

abbrev pub remember : Text → ℕ → Scan → Scan
remember path t s = record s { cache = insert path t s.cache; changed = true }

-- The modification time of a path in seconds, and 0 where there is none.
abbrev pub Times : Type 0
Times = Text → ℕ

-- The body of the loop, with what follows it as a function.
pub apply_verdict : Text → ℕ → Verdict → (Scan → Scan) → Scan → Scan
unfolding insert
apply_verdict path t pass_over next s = next s
apply_verdict path t not_terminal next s = next (remember path t s)
apply_verdict path t (accept e) next s = record s { found = some e }

pub scan_from : Host → Times → List Text → List (Text × Text) → Scan → Scan
unfolding apply_verdict judge is_cached lookup member
scan_from host times excluded [] s = s
scan_from host times excluded ((id, path) ∷ rest) s =
    let next : Scan → Scan = λ r. scan_from host times excluded rest r in
    if member id excluded
    then next s
    else if is_cached (lookup path s.cache) (times path)
    then next s
    else apply_verdict path (times path) (judge host path (host.files path)) next s

unfoldable pub scan_for_terminal : Host → Times → Dirs → List Text → Map ℕ → Scan
unfolding scan_from list
scan_for_terminal host times dirs excluded cache =
    scan_from host times excluded (list host dirs (codes "applications"))
      (record { cache = cache; changed = false; found = none })

-- One line of the cache: a time, a space and a path.
read_cached : Option (Text × Text) → Map ℕ → Map ℕ
unfolding parse_unsigned insert
read_cached none m = m
read_cached (some (mt, path)) m = elim (parse_unsigned u64_max mt) [
  | none ↦ m
  | some t ↦ insert path t m
]

read_cached_lines : List Text → Map ℕ → Map ℕ
unfolding read_cached split_once
read_cached_lines [] m = m
read_cached_lines (l ∷ ls) m = read_cached_lines ls (read_cached (split_once b' ' l) m)

unfoldable pub load_not_terminals : File → Map ℕ
unfolding read_cached_lines lines
load_not_terminals (content c) = read_cached_lines (lines c) []
load_not_terminals missing = []
load_not_terminals unreadable = []

-- A path with a newline is left out.
unfoldable pub render_not_terminals : Map ℕ → Text
unfolding contains_char decimal
render_not_terminals [] = []
render_not_terminals ((path, mt) ∷ m) =
    let rest = render_not_terminals m in
    if contains_char b'\n' path then rest else decimal mt ++ codes " " ++ path ++ codes "\n" ++ rest

-- What the scan writes to the cache's file: nothing, where it has found nothing new.
unfoldable pub saved_cache : Scan → Option Text
unfolding render_not_terminals
saved_cache s = if s.changed then some (render_not_terminals s.cache) else none

-- The loop over the preferred entries.
first_preferred :
    Host → Dirs → List (Text × Option Text) → Result (Option (DesktopEntry × Option Text))
unfolding find_entry is_terminal check_basic is_ok
first_preferred host dirs [] = ok none
first_preferred host dirs ((id, action) ∷ rest) =
    let next = first_preferred host dirs rest in
    elim (find_entry host dirs (codes "applications") id) [
      | err x ↦ err x
      | ok none ↦ next
      | ok (some e) ↦
          if is_terminal e && is_ok (check_basic host e action) then ok (some (e, action)) else next
    ]

scanned : Option DesktopEntry → Result (DesktopEntry × Option Text)
scanned none = err resolve
scanned (some e) = ok (e, none)

preferred_or :
    Option (DesktopEntry × Option Text) → Option DesktopEntry → Result (DesktopEntry × Option Text)
unfolding scanned
preferred_or (some chosen) scan = ok chosen
preferred_or none scan = scanned scan

-- The preferences and the cache are those that were read.
unfoldable pub find_terminal_entry :
    Host
    → Times
    → Dirs
    → List (Text × Option Text)
    → List Text
    → Map ℕ
    → Result (DesktopEntry × Option Text)
unfolding first_preferred preferred_or scan_for_terminal
find_terminal_entry host times dirs explicit excluded cache =
    first_preferred host dirs explicit >>= λ chosen.
    preferred_or chosen (scan_for_terminal host times dirs excluded cache).found

unfoldable pub resolve_terminal :
    Host
    → Times
    → Dirs
    → List (Text × Option Text)
    → List Text
    → Map ℕ
    → TermOpts
    → Result (List Text × List Text)
unfolding find_terminal_entry build_terminal
resolve_terminal host times dirs explicit excluded cache opts =
    find_terminal_entry host times dirs explicit excluded cache >>= λ ea.
    build_terminal ea.0 ea.1 opts
