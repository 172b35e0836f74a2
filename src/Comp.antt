-- ===== src/Comp.antt =====
-- src/comp.rs: what a compositor argument names, and the identity that is derived from it.
pub mod BinId
pub mod DesktopNames
pub mod Resolve
use mathlib.Core.List.{reverse}
use wsmr.Base.{
  ℕ, ◌+◌, Bool, true, false, not, ◌&&◌, ◌||◌, Option, none, some, List, [], ◌∷◌, ◌++◌, ◌==◌, within,
  if◌then◌else◌, is_empty, all, keep, first,
}
use wsmr.Base.Text.{
  Text, codes, text_eq, contains, contains_char, ends_with, strip_prefix, split, split_once,
  is_ascii_alphabetic, is_ascii_alphanumeric,
}
use wsmr.Base.Maps.{is_some}
use wsmr.Base.Sets.{member, text_key}
use wsmr.Error.{Error, invalid_arg, resolve, Result, ok, err, ◌>>=◌}
use wsmr.Units.Escape.{simple_systemd_escape}

pub record MainArg : Type 0 where
  pub entry_id : Option Text
  pub entry_action : Option Text
  pub executable : Option Text
  pub path : Option Text

unfoldable pub is_action_id : Text → Bool
is_action_id s = not (is_empty s) && all (λ c. is_ascii_alphanumeric c || c == b'-') s

starts_id : Text → Bool
starts_id [] = false
starts_id (c ∷ s) = is_ascii_alphanumeric c || c == b'_'

unfoldable pub is_entry_id : Text → Bool
unfolding ends_with starts_id
is_entry_id s =
    if not (ends_with (codes ".desktop") s)
    then false
    else if not (starts_id s)
    then false
    else all (λ c. is_ascii_alphanumeric c || c == b'_' || c == b'.' || c == b'-') s

unfoldable pub is_wm_id : Text → Bool
is_wm_id s =
    not (is_empty s)
    && all (λ c. is_ascii_alphanumeric c || c == b'_' || c == b':' || c == b'.' || c == b'-') s

-- The last piece of a list of pieces.
last_of : Text → List Text → Text
last_of d [] = d
last_of d (p ∷ ps) = last_of p ps

-- `rsplit('/').next()`
unfoldable pub file_basename : Text → Text
unfolding last_of split
file_basename p = last_of p (split b'/' p)

-- `$HOME` is given by `home`, where it is set.
unfoldable pub normalize_user_path : Option Text → Text → Text
unfolding strip_prefix
normalize_user_path home p = elim (strip_prefix (codes "~/") p) [
  | none ↦ p
  | some rest ↦ elim home [ none ↦ p | some h ↦ h ++ codes "/" ++ rest ]
]

-- A component of a path that `components` yields, and that is not `.`.
is_component : Text → Bool
unfolding text_eq
is_component c = not (is_empty c) && not (text_eq c (codes "."))

-- `Path::file_name`: the last component, unless it is `..`.
unfoldable pub file_name : Text → Option Text
unfolding is_component split text_eq
file_name p = elim (first (reverse (keep is_component (split b'/' p)))) [
  | none ↦ none
  | some c ↦ if text_eq c (codes "..") then none else some c
]

-- The id and the action of an argument that is an entry.
split_action : Text → Result (Text × Option Text)
unfolding split_once is_action_id
split_action arg = elim (split_once b':' arg) [
  | none ↦ ok (arg, none)
  | some (id, action) ↦
      if is_empty action
      then ok (id, none)
      else if is_action_id action
      then ok (id, some action)
      else err invalid_arg
]

or_id : Option Text → Text → Text
or_id none id = id
or_id (some n) id = n

entry_arg : Option Text → Option Text → Text → Result MainArg
unfolding contains_char is_entry_id file_name normalize_user_path or_id
entry_arg home action id =
    if contains_char b'/' id
    then ok (record {
      entry_id = some (or_id (file_name (normalize_user_path home id)) id);
      entry_action = action;
      executable = none;
      path = some (normalize_user_path home id);
    })
    else if not (is_entry_id id)
    then err invalid_arg
    else ok (record { entry_id = some id; entry_action = action; executable = none; path = none })

unfoldable pub parse : Option Text → Text → Result MainArg
unfolding split_action entry_arg ends_with contains contains_char normalize_user_path
parse home arg =
    if ends_with (codes ".desktop") arg || contains (codes ".desktop:") arg
    then (split_action arg >>= λ ia. entry_arg home ia.1 ia.0)
    else ok (record {
      entry_id = none;
      entry_action = none;
      executable = some arg;
      path = if contains_char b'/' arg then some (normalize_user_path home arg) else none;
    })

pub is_word : ℕ → Bool
is_word c = is_ascii_alphanumeric c || c == b'_'

-- `to_lowercase`, of a word character.
pub lower : ℕ → ℕ
lower c = if within b'A' b'Z' c then c + 32 else c

-- The loop of `sanitize_bin_id` behind the first character; the flag says that it is in a run of
-- characters that are replaced together.
pub sanitize_from : Bool → Text → Text
unfolding is_word lower
sanitize_from skipping [] = []
sanitize_from skipping (c ∷ s) =
    let word = sanitize_from false s in
    let run = sanitize_from true s in
    if is_word c then lower c ∷ word else if skipping then run else b'_' ∷ run

unfoldable pub sanitize_bin_id : Text → Text
unfolding sanitize_from lower
sanitize_bin_id [] = []
sanitize_bin_id (c ∷ s) =
    if is_ascii_alphabetic c then lower c ∷ sanitize_from false s else b'_' ∷ sanitize_from true s

-- `retain` with the set of what has been seen.
pub retain_new : List Text → List Text → List Text
unfolding member
retain_new seen [] = []
retain_new seen (x ∷ v) =
    let same = retain_new seen v in
    let more = retain_new (x ∷ seen) v in if member x seen then same else x ∷ more

unfoldable pub dedup_preserving : List Text → List Text
unfolding retain_new
dedup_preserving v = retain_new [] v

pub record ResolveInput : Type 0 where
  pub wm_cmdline : List Text
  pub desktop_names : List Text
  pub desktop_names_exclusive : Bool
  pub name : Option Text
  pub description : Option Text
  pub xdg_current_desktop : List Text

pub record CompGlobals : Type 0 where
  pub cmdline : List Text
  pub id : Text
  pub id_unit_string : Text
  pub bin_name : Text
  pub bin_id : Text
  pub desktop_names : List Text
  pub name : Option Text
  pub description : Option Text
  pub cli_desktop_names : List Text
  pub cli_desktop_names_exclusive : Bool

or_bin_name : List Text → Text → List Text
or_bin_name [] bin_name = bin_name ∷ []
or_bin_name (n ∷ ns) bin_name = n ∷ ns

-- The names of the desktop; those of an entry are `entry_dn`, which an executable has none of.
unfoldable pub merge_desktop_names : ResolveInput → Text → List Text → List Text
unfolding dedup_preserving or_bin_name
merge_desktop_names i bin_name entry_dn = dedup_preserving (
    if i.desktop_names_exclusive
    then i.desktop_names
    else or_bin_name (i.xdg_current_desktop ++ i.desktop_names ++ entry_dn) bin_name)

-- `CompGlobals::resolve`, from where the argument is known to be no entry.
unfoldable pub resolve_executable : ResolveInput → Text → Result CompGlobals
unfolding file_basename is_wm_id simple_systemd_escape sanitize_bin_id merge_desktop_names
resolve_executable i arg0 =
    let id = file_basename arg0 in
    if not (is_wm_id id)
    then err resolve
    else ok (record {
      cmdline = i.wm_cmdline;
      id = id;
      id_unit_string = simple_systemd_escape id false;
      bin_name = id;
      bin_id = sanitize_bin_id id;
      desktop_names = merge_desktop_names i id [];
      name = i.name;
      description = i.description;
      cli_desktop_names = i.desktop_names;
      cli_desktop_names_exclusive = i.desktop_names_exclusive;
    })
