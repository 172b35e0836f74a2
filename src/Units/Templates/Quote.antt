-- ===== src/Units/Templates/Quote.antt =====
-- `shlex_join` and `shlex_quote`: arguments as a line of POSIX shell.
pub mod Shell
use wsmr.Base.{ℕ, Bool, ◌||◌, List, [], ◌∷◌, ◌++◌, ◌==◌, if◌then◌else◌, all, map, is_empty}
use wsmr.Base.Text.{Text, codes, is_ascii_alphanumeric, contains_char, join}

pub is_plain : ℕ → Bool
unfolding contains_char
is_plain c = is_ascii_alphanumeric c || contains_char c (codes "@%+=:,./-_")

-- `replace('\'', "'\"'\"'")`
pub replace_quote : Text → Text
replace_quote [] = []
replace_quote (c ∷ s) =
    let rest = replace_quote s in if c == b'\'' then codes "'\"'\"'" ++ rest else c ∷ rest

unfoldable pub shlex_quote : Text → Text
unfolding is_plain replace_quote
shlex_quote s =
    if is_empty s
    then codes "''"
    else if all is_plain s
    then s
    else b'\'' ∷ (replace_quote s ++ b'\'' ∷ [])

unfoldable pub shlex_join : List Text → Text
unfolding shlex_quote join
shlex_join parts = join (codes " ") (map shlex_quote parts)
