-- ===== src/App/Terminal/Lists.antt =====
-- src/app/terminal.rs: the files `xdg-terminals.list`.
pub mod Precedence
use wsmr.Base.{
  Bool, true, false, not, ◌&&◌, ◌||◌, Option, none, some, List, [], ◌∷◌, ◌++◌, if◌then◌else◌,
  is_empty, any, map, keep,
}
use wsmr.Base.Text.{Text, codes, text_eq, trim, starts_with, strip_prefix, lines}
use wsmr.Base.Maps.{is_some}
use wsmr.Base.Sets
use wsmr.Base.Sets.{member, text_key}
use wsmr.Error.{Result, ok, err}
use wsmr.Disk.{File, missing, unreadable, content}
use wsmr.Util.{Host, join_path, unwrap_or}
use wsmr.Util.Xdg.{config_paths, data_dirs, split_colon}
use wsmr.Comp.{MainArg, parse}

-- What the lists have said so far; the sets are kept in order.
pub record Preferences : Type 0 where
  pub explicit : List (Text × Option Text)
  pub excluded : List Text
  pub protected : List Text

-- What a line does with an entry: `+`, `-`, or nothing in front of it.
pub data Sign : Type 0 where
  plus minus bare : Sign

signed_plus : Text → Option Text → Sign × Text
signed_plus line none = (bare, line)
signed_plus line (some r) = (plus, r)

signed : Text → Option Text → Sign × Text
unfolding signed_plus strip_prefix
signed line none = signed_plus line (strip_prefix (codes "+") line)
signed line (some r) = (minus, r)

ref_of : Result MainArg → Option Text × Option Text
ref_of (err e) = (none, none)
ref_of (ok m) =
    if is_some m.entry_id && not (is_some m.path)
    then (m.entry_id, m.entry_action)
    else (none, none)

unfoldable pub parse_entry_ref : Option Text → Text → Option Text × Option Text
unfolding ref_of parse
parse_entry_ref home s = ref_of (parse home s)

same_action : Option Text → Option Text → Bool
unfolding text_eq
same_action none none = true
same_action none (some b) = false
same_action (some a) none = false
same_action (some a) (some b) = text_eq a b

pub apply_ref : Sign → Text → Option Text → Preferences → Preferences
unfolding same_action member Sets.insert text_eq
apply_ref bare id action p =
    if not (any (λ (e : Text × Option Text). text_eq e.0 id && same_action e.1 action) p.explicit)
    then record p { explicit = p.explicit ++ (id, action) ∷ [] }
    else p
apply_ref minus id action p =
    if not (is_some action) && not (member id p.protected)
    then record p { excluded = Sets.insert id p.excluded }
    else p
apply_ref plus id action p =
    if not (is_some action)
    then record p {
      protected = Sets.insert id p.protected;
      excluded = keep (λ x. not (text_eq x id)) p.excluded;
    }
    else p

pub apply_line : Sign → Option Text × Option Text → Preferences → Preferences
unfolding apply_ref
apply_line sign (none, action) p = p
apply_line sign (some id, action) p = apply_ref sign id action p

pub read_preference : Option Text → Text → Preferences → Preferences
unfolding apply_line signed parse_entry_ref trim starts_with strip_prefix
read_preference home raw p =
    let line = trim raw in
    let (sign, rest) = signed line (strip_prefix (codes "-") line) in
    if is_empty line || starts_with (codes "#") line
    then p
    else apply_line sign (parse_entry_ref home rest) p

pub read_preferences : Option Text → List Text → Preferences → Preferences
unfolding read_preference
read_preferences home [] p = p
read_preferences home (l ∷ ls) p = read_preferences home ls (read_preference home l p)

unfoldable pub parse_terminal_list : Option Text → Text → Preferences → Preferences
unfolding read_preferences lines
parse_terminal_list home text p = read_preferences home (lines text) p

-- The names of the lists, that of each desktop in front.
list_names : Host → List Text
unfolding split_colon unwrap_or
list_names host =
    map (λ (d : Text). d ++ codes "-xdg-terminals.list")
      (split_colon (unwrap_or [] (host.env_var (codes "XDG_CURRENT_DESKTOP"))))
    ++ codes "xdg-terminals.list" ∷ []

list_dirs : Host → List Text
unfolding config_paths data_dirs join_path
list_dirs host =
    config_paths host
    ++ map (λ (d : Text). join_path d (codes "xdg-terminal-exec")) (data_dirs host)

read_file_of : Option Text → File → Preferences → Preferences
unfolding parse_terminal_list
read_file_of home (content c) p = parse_terminal_list home c p
read_file_of home missing p = p
read_file_of home unreadable p = p

read_dir_lists : Host → Text → List Text → Preferences → Preferences
unfolding read_file_of join_path
read_dir_lists host dir [] p = p
read_dir_lists host dir (f ∷ fs) p =
    read_dir_lists host dir fs
      (read_file_of (host.env_var (codes "HOME")) (host.files (join_path dir f)) p)

pub read_all_lists : Host → List Text → List Text → Preferences → Preferences
unfolding read_dir_lists
read_all_lists host names [] p = p
read_all_lists host names (dir ∷ dirs) p =
    read_all_lists host names dirs (read_dir_lists host dir names p)

abbrev pub no_preferences : Preferences
no_preferences = record { explicit = []; excluded = []; protected = [] }

unfoldable pub read_terminal_lists : Host → Preferences
unfolding read_all_lists list_names list_dirs
read_terminal_lists host = read_all_lists host (list_names host) (list_dirs host) no_preferences
