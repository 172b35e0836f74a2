-- ===== src/App/Find.antt =====
-- src/app/find.rs: the search for entries below the data directories. A directory is its listing, in
-- the order in which it is read; the files are those of the host. A directory that cannot be listed
-- is taken as one that is empty, as the source does.
pub mod Order
use wsmr.Base.{
  ℕ, Bool, true, false, not, ◌&&◌, Option, none, some, List, [], ◌∷◌, ◌++◌, ◌==◌, if◌then◌else◌,
  map,
}
use wsmr.Base.Text.{Text, codes, text_eq, ends_with}
use wsmr.Error.{Error, io, Result, ok, err, ◌>>=◌}
use wsmr.Disk.{File, missing, unreadable, content, Disk}
use wsmr.Util.{Host, join_path}
use wsmr.Util.Xdg.{data_paths}
use wsmr.App.Entry.{DesktopEntry, parse}

pub data Listing : Type 0 where
  end : Listing
  failed : Listing → Listing
  file : Text → Listing → Listing
  directory : Text → Listing → Listing → Listing

-- The directories of the host, by path: those for which `is_dir` holds.
abbrev pub Dirs : Type 0
Dirs = Text → Option Listing

-- The extension is `desktop`; the name that is nothing else has none.
unfoldable pub is_entry_file : Text → Bool
unfolding ends_with text_eq
is_entry_file name = ends_with (codes ".desktop") name && not (text_eq name (codes ".desktop"))

flat_char : ℕ → ℕ
flat_char c = if c == b'/' then b'-' else c

-- `replace('/', "-")` of the path below the base.
unfoldable pub flat : Text → Text
unfolding flat_char
flat rel = map flat_char rel

unfoldable pub read_entry : Text → File → Result DesktopEntry
unfolding parse
read_entry path (content c) = parse path c
read_entry path missing = err (io path)
read_entry path unreadable = err (io path)

abbrev pub Found : Type 0
Found = Result (Option DesktopEntry)

-- The search goes on where nothing is found, and ends with what is found or fails.
pub or_next : Found → Found → Found
or_next (err x) next = err x
or_next (ok none) next = next
or_next (ok (some e)) next = ok (some e)

pub found : Result DesktopEntry → Found
found (err x) = err x
found (ok e) = ok (some e)

-- `rel` is the path of the directory below the base, with a slash behind it, or nothing.
pub walk : Disk → Text → Text → Text → Listing → Found
unfolding or_next found is_entry_file flat text_eq read_entry join_path
walk d dir rel id end = ok none
walk d dir rel id (failed rest) = err (io dir)
walk d dir rel id (directory name sub rest) =
    or_next (walk d (join_path dir name) (rel ++ name ++ codes "/") id sub) (walk d dir rel id rest)
walk d dir rel id (file name rest) =
    let next = walk d dir rel id rest in
    let path = join_path dir name in
    if not (is_entry_file name)
    then next
    else if text_eq (flat (rel ++ name)) id
    then found (read_entry path (d path))
    else next

-- An entry that the predicate takes; one that cannot be read or parsed is passed over.
taken : (Text → DesktopEntry → Bool) → Text → Result DesktopEntry → Found → Found
taken pred id (err x) next = next
taken pred id (ok e) next = if pred id e then ok (some e) else next

walk_pred : (Text → DesktopEntry → Bool) → Disk → Text → Text → Listing → Found
unfolding or_next taken is_entry_file flat read_entry join_path
walk_pred pred d dir rel end = ok none
walk_pred pred d dir rel (failed rest) = err (io dir)
walk_pred pred d dir rel (directory name sub rest) =
    or_next (walk_pred pred d (join_path dir name) (rel ++ name ++ codes "/") sub)
      (walk_pred pred d dir rel rest)
walk_pred pred d dir rel (file name rest) =
    let next = walk_pred pred d dir rel rest in
    let path = join_path dir name in
    if not (is_entry_file name)
    then next
    else taken pred (flat (rel ++ name)) (read_entry path (d path)) next

-- The ids and paths of the entries, as `out` has them.
pub collect : Text → Text → Listing → List (Text × Text)
unfolding is_entry_file flat join_path
collect dir rel end = []
collect dir rel (failed rest) = collect dir rel rest
collect dir rel (directory name sub rest) =
    collect (join_path dir name) (rel ++ name ++ codes "/") sub ++ collect dir rel rest
collect dir rel (file name rest) =
    let next = collect dir rel rest in
    if not (is_entry_file name) then next else (flat (rel ++ name), join_path dir name) ∷ next

-- The walks of the bases that have a directory at `subpath`, one behind the other.
pub in_bases : (Text → Listing → Found) → Dirs → Text → List Text → Found
unfolding or_next join_path
in_bases search dirs subpath [] = ok none
in_bases search dirs subpath (base ∷ bases) = elim (dirs (join_path base subpath)) [
  | none ↦ in_bases search dirs subpath bases
  | some l ↦ or_next (search (join_path base subpath) l) (in_bases search dirs subpath bases)
]

unfoldable pub find_entry : Host → Dirs → Text → Text → Found
unfolding in_bases walk data_paths
find_entry host dirs subpath id =
    in_bases (λ dir l. walk host.files dir [] id l) dirs subpath (data_paths host)

unfoldable pub find_first : Host → Dirs → Text → (Text → DesktopEntry → Bool) → Found
unfolding in_bases walk_pred data_paths
find_first host dirs subpath pred =
    in_bases (λ dir l. walk_pred pred host.files dir [] l) dirs subpath (data_paths host)

pub list_bases : Dirs → Text → List Text → List (Text × Text)
unfolding collect join_path
list_bases dirs subpath [] = []
list_bases dirs subpath (base ∷ bases) = elim (dirs (join_path base subpath)) [
  | none ↦ list_bases dirs subpath bases
  | some l ↦ collect (join_path base subpath) [] l ++ list_bases dirs subpath bases
]

unfoldable pub list : Host → Dirs → Text → List (Text × Text)
unfolding list_bases data_paths
list host dirs subpath = list_bases dirs subpath (data_paths host)
