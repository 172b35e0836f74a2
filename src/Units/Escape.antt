-- ===== src/Units/Escape.antt =====
-- src/units/escape.rs: systemd's escaping of unit names.
pub mod Laws
pub mod Tokens
use wsmr.Base.{ℕ, ◌/◌, ◌%◌, Bool, true, false, ◌&&◌, ◌||◌, List, [], ◌∷◌, ◌++◌, ◌==◌, if◌then◌else◌}
use wsmr.Base.Text.{Text, utf8, utf8_char, hex_digit, is_ascii_alphanumeric}

-- `\xHH` of one byte, for `{b:02x}`.
pub cesc_byte : ℕ → Text
cesc_byte b = b'\\' ∷ b'x' ∷ hex_digit (b / 16) ∷ hex_digit (b % 16) ∷ []

pub cesc_bytes : List ℕ → Text
cesc_bytes [] = []
cesc_bytes (b ∷ bs) = cesc_byte b ++ cesc_bytes bs

unfoldable pub char2cesc : Text → Text
unfolding cesc_bytes cesc_byte utf8
char2cesc s = cesc_bytes (utf8 s)

pub is_allowed : ℕ → Bool
is_allowed c = c == b'.' || c == b'_' || c == b':' || is_ascii_alphanumeric c

pub escape_char : ℕ → Text
unfolding is_allowed char2cesc
escape_char c = if c == b'/' then b'-' ∷ [] else if is_allowed c then c ∷ [] else char2cesc (c ∷ [])

pub escape_rest : Text → Text
unfolding escape_char
escape_rest [] = []
escape_rest (c ∷ s) = escape_char c ++ escape_rest s

escape_start : Text → Text
unfolding escape_rest char2cesc
escape_start [] = []
escape_start (c ∷ s) =
    if c == b'.' then char2cesc (b'.' ∷ []) ++ escape_rest s else escape_rest (c ∷ s)

unfoldable pub simple_systemd_escape : Text → Bool → Text
unfolding escape_start escape_rest
simple_systemd_escape input start = if start then escape_start input else escape_rest input
