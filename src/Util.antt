-- ===== src/Util.antt =====
-- src/util/mod.rs: the search for an executable, the foreground terminal, and the numbers and paths
-- of the standard library that the other modules read. What the process finds around it is `Host`.
pub mod Xdg
use wsmr.Base.{
  ℕ, zero, suc, ◌+◌, ◌-◌, ◌*◌, ◌/◌, ◌%◌, Bool, true, false, not, Option, none, some, List, [], ◌∷◌,
  ◌++◌, ◌==◌, leb, ltb, if◌then◌else◌, is_empty, map,
}
use wsmr.Base.Text.{
  Text, codes, contains_char, starts_with, ends_with, strip_prefix, split, trim, is_ascii_digit,
}
use wsmr.Error.{Error, io, resolve, Result, ok, err}
use wsmr.Disk.{File, missing, unreadable, content, Disk}

-- The environment of the process and the files that it can see, by path.
pub record Host : Type 0 where
  pub env_var : Text → Option Text
  pub is_executable : Text → Bool
  pub is_dir : Text → Bool
  pub files : Disk

-- `Option::filter` with a test that the text is not empty.
unfoldable pub non_empty : Option Text → Option Text
non_empty none = none
non_empty (some s) = if not (is_empty s) then some s else none

unfoldable pub unwrap_or : Text → Option Text → Text
unwrap_or d none = d
unwrap_or d (some s) = s

unfoldable pub or_else : Option Text → Option Text → Option Text
or_else none b = b
or_else (some a) b = some a

-- `Path::join`
unfoldable pub join_path : Text → Text → Text
unfolding starts_with ends_with
join_path a b =
    if starts_with (codes "/") b
    then b
    else if is_empty a
    then b
    else if ends_with (codes "/") a
    then a ++ b
    else a ++ codes "/" ++ b

pub digits_value : ℕ → Text → Option ℕ
digits_value acc [] = some acc
digits_value acc (c ∷ s) =
    let rest = digits_value (10 * acc + (c - b'0')) s in if is_ascii_digit c then rest else none

pub within_max : ℕ → Option ℕ → Option ℕ
within_max max none = none
within_max max (some n) = if leb n max then some n else none

pub strip_plus : Text → Text
strip_plus [] = []
strip_plus (c ∷ s) = if c == b'+' then s else c ∷ s

-- `parse` of an unsigned integer whose largest value is `max`.
unfoldable pub parse_unsigned : ℕ → Text → Option ℕ
unfolding digits_value within_max strip_plus
parse_unsigned max s =
    let digits = strip_plus s in
    if is_empty digits then none else within_max max (digits_value 0 digits)

abbrev pub u32_max : ℕ
u32_max = 4_294_967_295

abbrev pub u64_max : ℕ
u64_max = 18_446_744_073_709_551_615

abbrev pub active_tty_path : Text
active_tty_path = codes "/sys/class/tty/tty0/active"

pub read_vt : Option Text → Option ℕ
unfolding parse_unsigned
read_vt none = none
read_vt (some n) = parse_unsigned u32_max n

pub or_resolve : Option ℕ → Result ℕ
or_resolve none = err resolve
or_resolve (some n) = ok n

unfoldable pub read_fg_vt : Disk → Result ℕ
unfolding read_vt or_resolve trim strip_prefix
read_fg_vt d = elim (d active_tty_path) [
  | content raw ↦ or_resolve (read_vt (strip_prefix (codes "tty") (trim raw)))
  | _ ↦ err (io active_tty_path)
]

-- `find` over the candidates of the directories of `$PATH`.
pub search_path : Host → Text → List Text → Option Text
unfolding join_path
search_path host cmd [] = none
search_path host cmd (dir ∷ dirs) =
    let rest = search_path host cmd dirs in
    if host.is_executable (join_path dir cmd) then some (join_path dir cmd) else rest

pub which_in : Host → Text → Option Text → Option Text
unfolding search_path split
which_in host cmd none = none
which_in host cmd (some path) = search_path host cmd (split b':' path)

unfoldable pub which : Host → Text → Option Text
unfolding which_in contains_char
which host cmd =
    if is_empty cmd
    then none
    else if contains_char b'/' cmd
    then if host.is_executable cmd then some cmd else none
    else which_in host cmd (host.env_var (codes "PATH"))

-- The digits of a number, in front of `acc`, as many as the fuel allows.
pub decimal_from : ℕ → ℕ → Text → Text
decimal_from zero n acc = acc
decimal_from (suc fuel) n acc = elim (ltb n 10) [
  | true ↦ (b'0' + n) ∷ acc
  | false ↦ decimal_from fuel (n / 10) ((b'0' + n % 10) ∷ acc)
]

-- `{}` of a number of 64 bits, which has at most twenty digits.
unfoldable pub decimal : ℕ → Text
unfolding decimal_from
decimal n = decimal_from 20 n []
