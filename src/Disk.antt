-- ===== src/Disk.antt =====
-- The files of one directory, by relative name, and src/util/fsutil.rs, which replaces a file by a
-- temporary one that is renamed over it. Which paths can be written and removed is the system's.
pub mod Laws
use wsmr.Base.{Bool, true, false, ◌&&◌, if◌then◌else◌}
use wsmr.Base.Text.{Text, text_eq}
use wsmr.Error.{Error, io, Result, ok, err}

-- What `read_to_string` finds: `NotFound`, another error (also for a file that is not UTF-8), or text.
-- An unreadable file is one whose metadata can be read, so that `Path::exists` says that it is there.
pub data File : Type 0 where
  missing unreadable : File
  content : Text → File

abbrev pub Disk : Type 0
Disk = Text → File

unfoldable pub put : Text → File → Disk → Disk
put p f d q = if text_eq p q then f else d q

-- The answers of the file system, by the name of the destination; and the paths of its directory and of
-- the temporary file beside it, which has the process and the time in its name.
pub record Device : Type 0 where
  pub parent : Text → Text
  pub temp_path : Text → Text
  pub can_create_parent : Text → Bool
  pub can_write_temp : Text → Bool
  pub can_rename : Text → Bool
  pub can_remove : Text → Bool

unfoldable pub can_write : Device → Text → Bool
can_write dev p = dev.can_create_parent p && dev.can_write_temp p && dev.can_rename p

-- A failure at any step leaves the destination as it was: only the rename touches it.
unfoldable pub atomic_write : Device → Text → Text → Disk → Result Disk
unfolding put
atomic_write dev p c d =
    if dev.can_create_parent p
    then if dev.can_write_temp p
      then if dev.can_rename p then ok (put p (content c) d) else err (io p)
      else err (io (dev.temp_path p))
    else err (io (dev.parent p))

pub data Removal : Type 0 where
  removed : Disk → Removal
  not_found refused : Removal

-- `std::fs::remove_file`
unfoldable pub remove_file : Device → Text → Disk → Removal
unfolding put
remove_file dev p d = elim (d p) [
  | missing ↦ not_found
  | _ ↦ if dev.can_remove p then removed (put p missing d) else refused
]

-- A file that `read_to_string` reads, or does not find.
abbrev pub IsReadable : File → Type 0
IsReadable missing = Unit
IsReadable (content c) = Unit
IsReadable unreadable = ⊥
