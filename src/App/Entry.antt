-- ===== src/App/Entry.antt =====
-- src/app/entry.rs: desktop entries, read and checked.
pub mod Locale
pub mod Check
pub mod Parsing
use mathlib.Core.List.{reverse}
use wsmr.Base.{
  Bool, true, false, not, ◌&&◌, ◌||◌, Option, none, some, List, [], ◌∷◌, ◌++◌, ◌==◌, if◌then◌else◌,
  is_empty, keep, any,
}
use wsmr.Base.Text.{
  Text, codes, text_eq, trim, starts_with, strip_prefix, strip_suffix, split, split_once, lines,
}
use wsmr.Base.Maps.{Map, lookup, insert, contains_key, is_some}
use wsmr.Error.{Error, invalid_arg, Result, ok, err, ◌>>=◌}
use wsmr.App.Field.{expand_str, tokenize_exec}
use wsmr.Util.{non_empty, unwrap_or}

pub record DesktopEntry : Type 0 where
  pub filename : Text
  pub groups : Map (Map Text)

-- The variables of the loop of `parse`.
pub record Reading : Type 0 where
  pub groups : Map (Map Text)
  pub current : Option Text

abbrev pub main_group : Text
main_group = codes "Desktop Entry"

pub trim_start_cr : Text → Text
trim_start_cr [] = []
trim_start_cr (c ∷ s) = let rest = trim_start_cr s in if c == b'\r' then rest else c ∷ s

-- `trim_end_matches('\r')`
pub trim_end_cr : Text → Text
unfolding trim_start_cr
trim_end_cr s = reverse (trim_start_cr (reverse s))

pub or_default : Option (Map Text) → Map Text
or_default none = []
or_default (some g) = g

pub open_group : Text → Reading → Reading
unfolding or_default lookup insert
open_group name r = record {
  groups = insert name (or_default (lookup name r.groups)) r.groups;
  current = some name;
}

-- The current group is one of the groups, so that its default is not used.
pub assign : Text → Text → Option Text → Reading → Reading
unfolding or_default lookup insert
assign k v none r = r
assign k v (some g) r = record r {
  groups = insert g (insert k v (or_default (lookup g r.groups))) r.groups;
}

pub group_name : Text → Option Text
unfolding strip_prefix strip_suffix text_eq
group_name trimmed = elim (strip_prefix (codes "[") trimmed) [
  | none ↦ none
  | some s ↦ strip_suffix (codes "]") s
]

pub read_assignment : Option (Text × Text) → Reading → Reading
unfolding assign trim
read_assignment none r = r
read_assignment (some (k, v)) r = assign (trim k) v r.current r

pub read_group_or_key : Text → Option Text → Reading → Reading
unfolding open_group read_assignment split_once
read_group_or_key line none r = read_assignment (split_once b'=' line) r
read_group_or_key line (some name) r = open_group name r

-- The body of the loop of `parse`.
pub read_line : Text → Reading → Reading
unfolding trim_end_cr trim starts_with group_name read_group_or_key
read_line raw r =
    let line = trim_end_cr raw in
    let trimmed = trim line in
    if is_empty trimmed || starts_with (codes "#") trimmed
    then r
    else read_group_or_key line (group_name trimmed) r

pub read_lines : List Text → Reading → Reading
unfolding read_line
read_lines [] r = r
read_lines (l ∷ ls) r = read_lines ls (read_line l r)

abbrev pub nothing_read : Reading
nothing_read = record { groups = []; current = none }

unfoldable pub parse : Text → Text → Result DesktopEntry
unfolding read_lines lines
parse filename content =
    let groups = (read_lines (lines content) nothing_read).groups in
    if not (contains_key main_group groups)
    then err invalid_arg
    else ok (record { filename = filename; groups = groups })

unfoldable pub group : DesktopEntry → Option Text → Option (Map Text)
unfolding lookup
group e none = lookup main_group e.groups
group e (some a) = lookup (codes "Desktop Action " ++ a) e.groups

unfoldable pub get_in : Text → Option (Map Text) → Option Text
unfolding lookup
get_in key none = none
get_in key (some g) = lookup key g

unfoldable pub get : DesktopEntry → Text → Option Text → Option Text
unfolding get_in group
get e key action = get_in key (group e action)

exec_of : Option Text → Result (List Text)
unfolding tokenize_exec expand_str
exec_of none = err invalid_arg
exec_of (some raw) = tokenize_exec (expand_str raw)

unfoldable pub exec : DesktopEntry → Option Text → Result (List Text)
unfolding exec_of get
exec e action = exec_of (get e (codes "Exec") action)

-- A comparison of an optional text with a literal.
pub is_text : Text → Option Text → Bool
unfolding text_eq
is_text t none = false
is_text t (some s) = text_eq s t

unfoldable pub terminal : DesktopEntry → Bool
unfolding is_text get
terminal e = is_text (codes "true") (get e (codes "Terminal") none)

unfoldable pub path : DesktopEntry → Option Text
unfolding non_empty get
path e = non_empty (get e (codes "Path") none)

unfoldable pub split_list : Option Text → List Text
unfolding unwrap_or split
split_list v = keep (λ s. not (is_empty s)) (split b';' (unwrap_or [] v))

unfoldable pub actions : DesktopEntry → List Text
unfolding split_list get
actions e = split_list (get e (codes "Actions") none)

unfoldable pub categories : DesktopEntry → List Text
unfolding split_list get
categories e = split_list (get e (codes "Categories") none)
