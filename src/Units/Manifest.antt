-- ===== src/Units/Manifest.antt =====
-- src/units/manifest.rs: which files are the program's own, by path and content fingerprint.
pub mod Hex
pub mod RoundTrip
use Prim.Native.Nat.{bit_xor}
use wsmr.Base.{
  ℕ, zero, suc, ◌+◌, ◌*◌, ◌/◌, ◌%◌, ◌^◌, ◌-◌, Bool, true, false, not, ◌&&◌, ◌||◌, Option, none,
  some, List, [], ◌∷◌, ◌++◌, ◌==◌, ltb, within, if◌then◌else◌, is_empty,
}
use wsmr.Base.Text.{Text, codes, text_eq, split_once, lines, utf8, hex_digit, is_ascii_digit}
use wsmr.Base.Maps
use wsmr.Base.Maps.{Map, lookup, keys}
use wsmr.Error.{Error, io, Result, ok, err}
use wsmr.Disk.{File, missing, unreadable, content, Disk, Device, atomic_write}

abbrev pub u64_mod : ℕ
u64_mod = 2 ^ 64

-- A manifest is its `entries`.
abbrev pub Manifest : Type 0
Manifest = Map ℕ

abbrev pub manifest_name : Text
manifest_name = codes ".wsmr-generation"

-- 64-bit FNV-1a.
fnv_from : ℕ → List ℕ → ℕ
fnv_from hash [] = hash
fnv_from hash (byte ∷ bytes) = fnv_from (bit_xor hash byte * 0x0000_0100_0000_01b3 % u64_mod) bytes

unfoldable pub fingerprint : Text → ℕ
unfolding fnv_from utf8
fingerprint s = fnv_from 0xcbf2_9ce4_8422_2325 (utf8 s)

-- The value of a hexadecimal digit of either case.
pub digit_value : ℕ → Option ℕ
digit_value c =
    if is_ascii_digit c
    then some (c - b'0')
    else if within b'a' b'f' c
    then some (c - b'a' + 10)
    else if within b'A' b'F' c
    then some (c - b'A' + 10)
    else none

-- One more digit, with the overflow check of `u64`.
pub push_digit : ℕ → Option ℕ → Option ℕ
push_digit acc none = none
push_digit acc (some d) = if ltb (acc * 16 + d) u64_mod then some (acc * 16 + d) else none

pub hex_from : ℕ → Text → Option ℕ
hex_from acc [] = some acc
hex_from acc (c ∷ s) = elim (push_digit acc (digit_value c)) [
  | none ↦ none
  | some acc' ↦ hex_from acc' s
]

hex_digits : Text → Option ℕ
hex_digits [] = none
hex_digits (c ∷ s) = hex_from 0 (c ∷ s)

-- `u64::from_str_radix(hash, 16)`, which takes a leading plus sign.
unfoldable pub from_str_radix : Text → Option ℕ
unfolding hex_from push_digit digit_value hex_digits
from_str_radix [] = none
from_str_radix (c ∷ s) = if c == b'+' then hex_digits s else hex_digits (c ∷ s)

record_parsed : Option ℕ → Text → Manifest → Manifest
record_parsed none relname m = m
record_parsed (some fp) relname m = if not (is_empty relname) then Maps.insert relname fp m else m

parse_fields : Option (Text × Text) → Manifest → Manifest
unfolding record_parsed from_str_radix
parse_fields none m = m
parse_fields (some (hash, relname)) m = record_parsed (from_str_radix hash) relname m

starts_with_hash : Text → Bool
starts_with_hash [] = false
starts_with_hash (c ∷ s) = c == b'#'

parse_line : Text → Manifest → Manifest
unfolding starts_with_hash parse_fields
parse_line line m =
    if is_empty line || starts_with_hash line then m else parse_fields (split_once b' ' line) m

parse_lines : Manifest → List Text → Manifest
unfolding parse_line
parse_lines m [] = m
parse_lines m (line ∷ ls) = parse_lines (parse_line line m) ls

unfoldable pub parse : Text → Manifest
unfolding parse_lines lines split_once Maps.insert
parse s = parse_lines [] (lines s)

-- The `n` low hexadecimal digits, for `{:016x}`.
unfoldable pub hex_pad : ℕ → ℕ → Text
hex_pad zero x = []
hex_pad (suc n) x = hex_pad n (x / 16) ++ hex_digit (x % 16) ∷ []

abbrev pub manifest_header : Text
manifest_header = codes "# wsmr-generated manifest — machine-written, do not edit\n"

render_from : Text → Manifest → Text
render_from out [] = out
render_from out ((relname, fp) ∷ m) =
    render_from (out ++ hex_pad 16 fp ++ b' ' ∷ [] ++ relname ++ b'\n' ∷ []) m

unfoldable pub render : Manifest → Text
unfolding render_from hex_pad
render m = render_from manifest_header m

unfoldable pub load : Disk → Result Manifest
unfolding parse
load d = elim (d manifest_name) [
  | content s ↦ ok (parse s)
  | missing ↦ ok []
  | unreadable ↦ err (io manifest_name)
]

unfoldable pub save : Device → Manifest → Disk → Result Disk
unfolding render atomic_write
save dev m d = atomic_write dev manifest_name (render m) d

is_fingerprint : Option ℕ → ℕ → Bool
is_fingerprint none fp = false
is_fingerprint (some recorded) fp = recorded == fp

unfoldable pub verify : Manifest → Text → Text → Bool
unfolding is_fingerprint fingerprint lookup
verify m relname disk_content = is_fingerprint (lookup relname m) (fingerprint disk_content)

-- The method `record`, whose name is reserved.
unfoldable pub record_content : Text → Text → Manifest → Manifest
unfolding fingerprint Maps.insert
record_content relname c m = Maps.insert relname (fingerprint c) m

unfoldable pub forget : Text → Manifest → Manifest
unfolding Maps.remove
forget relname m = Maps.remove relname m

abbrev pub tracked : Manifest → List Text
tracked m = keys m
