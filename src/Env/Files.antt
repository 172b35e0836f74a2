-- ===== src/Env/Files.antt =====
-- src/env/files.rs: the snapshot of an environment as a file, and the cleanup list.
pub mod Snapshot
pub mod CleanupList
use wsmr.Base.{
  ℕ, Bool, true, false, not, ◌&&◌, Option, none, some, List, [], ◌∷◌, ◌++◌, ◌||◌, ◌==◌,
  if◌then◌else◌, is_empty, ◌≡◌, ◌↔◌, arith,
}
use wsmr.Base.Text.{Text, text_eq, text_lt, text_eq_iff, split, split_once, lines}
use wsmr.Base.Maps.{Map, insert}
use wsmr.Base.Sets
use wsmr.Base.Sets.{Key}
use wsmr.Error.{Error, io, Result, ok, err}
use wsmr.Disk.{File, missing, unreadable, content}
use wsmr.Env.Filter.{keep_name}

pub data Sep : Type 0 where
  nul newline : Sep

abbrev pub ch : Sep → ℕ
ch nul = 0
ch newline = b'\n'

pub serialize_from : ℕ → Text → Bool → Map Text → Text
serialize_from s out first [] = out
serialize_from s out first ((k, v) ∷ env) =
    let next =
      serialize_from s ((if first then out else out ++ s ∷ []) ++ k ++ b'=' ∷ [] ++ v) false env in
    let skipped = serialize_from s out first env in if not (keep_name k) then skipped else next

-- The newline form ends in a newline, unless it is empty.
terminate : Sep → Text → Text
terminate nul out = out
terminate newline out = if not (is_empty out) then out ++ b'\n' ∷ [] else out

unfoldable pub serialize_env : Map Text → Sep → Text
unfolding serialize_from keep_name terminate
serialize_env env sep = terminate sep (serialize_from (ch sep) [] true env)

-- One chunk of the loop of `parse_env_nul`.
parse_pair : Option (Text × Text) → Map Text → Map Text
parse_pair none m = m
parse_pair (some (k, v)) m = if keep_name k then insert k v m else m

parse_chunk : Text → Map Text → Map Text
unfolding parse_pair
parse_chunk chunk m = if is_empty chunk then m else parse_pair (split_once b'=' chunk) m

parse_chunks : Map Text → List Text → Map Text
parse_chunks m [] = m
parse_chunks m (chunk ∷ rest) = parse_chunks (parse_chunk chunk m) rest

unfoldable pub parse_env_nul : Text → Map Text
unfolding parse_chunks parse_chunk split keep_name split_once insert
parse_env_nul s = parse_chunks [] (split 0 s)

unfoldable pub load_env : Text → File → Result (Map Text)
unfolding parse_env_nul
load_env path missing = ok []
load_env path unreadable = err (io path)
load_env path (content s) = ok (parse_env_nul s)

pub record CleanupEntry : Type 0 where
  pub generation : Text
  pub name : Text

abbrev entry_same : CleanupEntry → CleanupEntry → Bool
entry_same a b = text_eq a.generation b.generation && text_eq a.name b.name

pub entry_same_iff : (a b : CleanupEntry) → (entry_same a b ≡ true) ↔ (a ≡ b)
entry_same_iff a b =
    ground (arith, text_eq_iff a.generation b.generation, text_eq_iff a.name b.name)

-- The derived `Ord`: the fields in their order.
instance abbrev pub entry_key : Key CleanupEntry
entry_key = record {
  same = entry_same;
  before = λ a b.
      text_lt a.generation b.generation
      || (text_eq a.generation b.generation && text_lt a.name b.name);
  same_iff = entry_same_iff;
}

-- One line of the cleanup list; a malformed line is ignored.
parse_fields : Option (Text × Text) → Option CleanupEntry
parse_fields none = none
parse_fields (some (g, n)) =
    if not (is_empty g) && keep_name n then some (record { generation = g; name = n }) else none

parse_entry : Text → Option CleanupEntry
unfolding parse_fields
parse_entry l = parse_fields (split_once b' ' l)

collect : Option CleanupEntry → List CleanupEntry → List CleanupEntry
collect none s = s
collect (some e) s = Sets.insert e s

parse_lines : List CleanupEntry → List Text → List CleanupEntry
unfolding parse_entry collect
parse_lines s [] = s
parse_lines s (l ∷ ls) = parse_lines (collect (parse_entry l) s) ls

unfoldable pub parse_cleanup_entries : Text → List CleanupEntry
unfolding parse_lines lines split_once keep_name
parse_cleanup_entries s = parse_lines [] (lines s)

unfoldable pub read_cleanup_entries : Text → File → Result (List CleanupEntry)
unfolding parse_cleanup_entries
read_cleanup_entries path missing = ok []
read_cleanup_entries path unreadable = err (io path)
read_cleanup_entries path (content s) = ok (parse_cleanup_entries s)

write_from : Text → List CleanupEntry → Text
write_from body [] = body
write_from body (e ∷ es) = write_from (body ++ e.generation ++ b' ' ∷ [] ++ e.name ++ b'\n' ∷ []) es

-- The body that `write_cleanup_entries` writes.
unfoldable pub render_cleanup_entries : List CleanupEntry → Text
unfolding write_from
render_cleanup_entries es = write_from [] es
